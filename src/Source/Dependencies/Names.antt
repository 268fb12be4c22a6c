-- ===== src/Source/Dependencies/Names.antt =====
-- The names of the repositories that `dependencyRepoFile` registers.
use mathlib.Core.List.{append-nil}
use kube_drift.Common.{
  ℕ, ◌≤◌, ◌<◌, ◌≡◌, refl, sym, ap, ◌∙◌, false, List, [], ◌∷◌, ◌++◌, Text, text, ◌==◌, eq_of_==,
  ◌||◌, ◌&&◌, not, length, length-append, arith, Bool-cases, inl, inr,
}
use kube_drift.Errors.Format.{num, sprintf, decimal}
use kube_drift.Errors.Format.Decimal.{decimal_inj}
use kube_drift.Source.Charts.{Entry}
use kube_drift.Source.Target.{listed}
use kube_drift.Source.Dependencies.{is_http, register, dependency_repo_file}
use kube_drift.Source.Dependencies.Repositories.{
  urls, IsDistinct, IsDistinct-snoc, listed-snoc, dependency_repo_file-urls,
}

abbrev pub names : List Entry → List Text
names [] = []
names (e ∷ es) = e.name ∷ names es

abbrev dep_name : ℕ → Text
dep_name n = sprintf (text "dep-%d") (num n ∷ [])

dep_name-decimal : (n : ℕ) → dep_name n ≡ text "dep-" ++ decimal n
unfolding sprintf
dep_name-decimal n = ap (λ s. text "dep-" ++ s) (append-nil (decimal n))

dep_name_inj : (m n : ℕ) → dep_name m ≡ dep_name n → m ≡ n
dep_name_inj m n e =
    let same : text "dep-" ++ decimal m ≡ text "dep-" ++ decimal n =
      sym (dep_name-decimal m) ∙ e ∙ dep_name-decimal n in
    decimal_inj m n cc

dep_name-ne : (m n : ℕ) → m < n → (dep_name m == dep_name n) ≡ false
dep_name-ne m n h = elim (Bool-cases (dep_name m == dep_name n)) [
  | inl same ↦ let e : m ≡ n = dep_name_inj m n (eq_of_== _ _ same) in absurd (omega arith)
  | inr other ↦ other
]

names-snoc : (es : List Entry) (e : Entry) → names (es ++ e ∷ []) ≡ names es ++ e.name ∷ []
names-snoc [] e = refl
names-snoc (x ∷ es) e = ap (λ ns. x.name ∷ ns) (names-snoc es e)

-- No number from the length on is taken.
abbrev IsFresh : List Entry → Type 0
IsFresh es = (k : ℕ) → length es ≤ k → listed (dep_name k) (names es) ≡ false

IsFresh-snoc :
    (es : List Entry) (u : Text)
    → IsFresh es
    → IsFresh (es ++ record { name = dep_name (length es); url = u } ∷ [])
IsFresh-snoc es u fresh k h =
    let e : Entry = record { name = dep_name (length es); url = u } in
    let longer = length-append es (e ∷ []) in
    let before : listed (dep_name k) (names es) ≡ false = fresh k (omega arith) in
    let apart : (dep_name (length es) == dep_name k) ≡ false =
      dep_name-ne (length es) k (omega arith) in
    rw (names-snoc es e)
      (listed-snoc (dep_name k) (dep_name (length es)) (names es) ∙ rw (before, apart) refl)

register-names :
    (deps seen : List Text) (es : List Entry)
    → IsDistinct (names es)
    → IsFresh es
    → IsDistinct (names (register deps seen es))
unfolding register
register-names [] seen es d fresh = d
register-names (u ∷ deps) seen es d fresh = elim (Bool-cases (not (is_http u) || listed u seen)) [
  | inl skipped ↦ rw skipped (register-names deps seen es d fresh)
  | inr kept ↦
      let e : Entry = record { name = dep_name (length es); url = u } in
      let here = fresh (length es) (omega arith) in
      let apart : IsDistinct (names (es ++ e ∷ [])) =
        rw (names-snoc es e) (IsDistinct-snoc e.name (names es) d here) in
      rw kept (register-names deps (u ∷ seen) (es ++ e ∷ []) apart (IsFresh-snoc es u fresh))
]

dependency_repo_file-names : (deps : List Text) → IsDistinct (names (dependency_repo_file deps))
unfolding dependency_repo_file
dependency_repo_file-names deps = register-names deps [] [] tt (λ k h. refl)

-- The repositories of a chart's dependencies are registered: each URL by HTTP or HTTPS exactly once,
-- and none of another kind; and no two of them have one name, for any number of dependencies.
pub dependency_repo_file_lem :
    (deps : List Text)
    → IsDistinct (urls (dependency_repo_file deps))
      × ((u : Text) → listed u (urls (dependency_repo_file deps)) ≡ (is_http u && listed u deps))
      × IsDistinct (names (dependency_repo_file deps))
dependency_repo_file_lem deps =
    let (distinct, exactly) = dependency_repo_file-urls deps in
    (distinct, exactly, dependency_repo_file-names deps)
