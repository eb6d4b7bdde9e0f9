-- ===== src/Logger.antt =====
-- logger/logger_interface.go and logger/logger.go: the interface of a logger, and the default one, which
-- stands until a program puts another in its place.
use paota.Common.{◌≡◌, refl, sym, ◌∙◌, List, [], ◌∷◌, ◌++◌, ap, String}
use mathlib.Core.List.{append_assoc, append-nil}

-- The last seven take a format, which is the first argument here.
pub data Method : Type 0 where
  debug info warn warning error fatal panic : Method
  debugln infoln warnln warningln errorln fatalln panicln : Method
  debugf infof warnf warningf errorf fatalf panicf : Method

-- The arguments of `log.Println`.
pub record Line {ℓ} (A : Type ℓ) : Type ℓ where
  pub prefix : String
  pub args : List A

-- What a call adds to the lines written so far.
abbrev pub Logger {ℓ} : Type ℓ → Type ℓ
Logger A = Method → List A → List (Line A) → List (Line A)

unfoldable pub default_logger {ℓ} : {A : Type ℓ} → Logger A
default_logger info args lines = lines ++ record { prefix = "[INFO]"; args = args } ∷ []
default_logger _ args lines = lines

abbrev pub log_all {ℓ} :
    {A : Type ℓ} → Logger A → List (Method × List A) → List (Line A) → List (Line A)
log_all l [] lines = lines
log_all l ((m, args) ∷ calls) lines = log_all l calls (l m args lines)

abbrev pub written {ℓ} : {A : Type ℓ} → Method × List A → List (Line A)
written (info, args) = record { prefix = "[INFO]"; args = args } ∷ []
written (_, args) = []

abbrev pub infos {ℓ} : {A : Type ℓ} → List (Method × List A) → List (Line A)
infos [] = []
infos (call ∷ calls) = written call ++ infos calls

one_call {ℓ} :
    {A : Type ℓ} (m : Method) (args : List A) (lines : List (Line A))
    → default_logger m args lines ≡ lines ++ written (m, args)
unfolding default_logger
one_call info args lines = refl
one_call _ args lines = sym (append-nil lines)

-- Of any calls, the default logger writes those of `Info`, in their order, and nothing else.
pub log_all-default_logger {ℓ} :
    {A : Type ℓ} (calls : List (Method × List A)) (lines : List (Line A))
    → log_all default_logger calls lines ≡ lines ++ infos calls
log_all-default_logger [] lines = sym (append-nil lines)
log_all-default_logger ((m, args) ∷ calls) lines =
    log_all-default_logger calls (default_logger m args lines)
    ∙ ap (λ l. l ++ infos calls) (one_call m args lines)
    ∙ append_assoc lines (written (m, args)) (infos calls)
