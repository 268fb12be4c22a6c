-- ===== src/Source/Dependencies/Repositories.antt =====
-- Which repositories `dependencyRepoFile` registers.
use kube_drift.Common.{
  ◌≡◌, refl, ap, ◌∙◌, Bool, true, false, List, [], ◌∷◌, ◌++◌, Text, text, ◌==◌, eq_of_==, ◌&&◌,
  ◌||◌, not, length, arith, Bool-cases, inl, inr,
}
use kube_drift.Errors.Format.{num, sprintf}
use kube_drift.Source.Charts.{Entry}
use kube_drift.Source.Target.{listed}
use kube_drift.Source.Dependencies.{is_http, register, dependency_repo_file}

abbrev pub urls : List Entry → List Text
urls [] = []
urls (e ∷ es) = e.url ∷ urls es

-- No URL stands twice.
abbrev pub IsDistinct : List Text → Type 0
IsDistinct [] = Unit
IsDistinct (u ∷ us) = (listed u us ≡ false) × IsDistinct us

eq_sym : (s t : Text) → (s == t) ≡ (t == s)
eq_sym s t = elim (Bool-cases (s == t)) [
  | inl h ↦ let e : s ≡ t = eq_of_== s t h in rw e refl
  | inr h ↦ elim (Bool-cases (t == s)) [
    | inl k ↦ let e : t ≡ s = eq_of_== t s k in rw e refl
    | inr k ↦ rw (h, k) refl
  ]
]

pub listed-snoc : (v u : Text) (us : List Text) → listed v (us ++ u ∷ []) ≡ (listed v us || u == v)
unfolding listed
listed-snoc v u [] = ground arith
listed-snoc v u (w ∷ us) = ground (arith, listed-snoc v u us)

pub IsDistinct-snoc :
    (u : Text) (us : List Text) → IsDistinct us → listed u us ≡ false → IsDistinct (us ++ u ∷ [])
unfolding listed
IsDistinct-snoc u [] d h = (refl, tt)
IsDistinct-snoc u (w ∷ us) d h =
    let others : listed u us ≡ false = ground arith in
    let apart : (w == u) ≡ false = ground arith in
    (listed-snoc w u us ∙ rw (d.0, eq_sym u w, apart) refl, IsDistinct-snoc u us d.1 others)

urls-snoc : (es : List Entry) (e : Entry) → urls (es ++ e ∷ []) ≡ urls es ++ e.url ∷ []
urls-snoc [] e = refl
urls-snoc (x ∷ es) e = ap (λ us. x.url ∷ us) (urls-snoc es e)

-- What the loop leaves: distinct URLs, those that it had and the HTTP ones to come.
record Registers (deps : List Text) (before after : List Entry) : Type 0 where
  distinct : IsDistinct (urls after)
  exactly :
      (v : Text) → listed v (urls after) ≡ (listed v (urls before) || (is_http v && listed v deps))

or_comm : (a b : Bool) → (a || b) ≡ (b || a)
or_comm a b = ground arith

skipped_lem :
    (u v : Text) (seen deps us : List Text)
    → listed v seen ≡ listed v us
    → (not (is_http u) || listed u seen) ≡ true
    → (listed v us || (is_http v && listed v deps))
      ≡ (listed v us || (is_http v && (u == v || listed v deps)))
skipped_lem u v seen deps us inv skipped = elim (Bool-cases (u == v)) [
  | inr other ↦ rw other refl
  | inl same ↦
      let here : (not (is_http v) || listed v seen) ≡ true = rw (eq_of_== u v same) at skipped in
      ground arith
]

kept_lem :
    (u v : Text) (seen deps us : List Text)
    → (not (is_http u) || listed u seen) ≡ false
    → ((listed v us || u == v) || (is_http v && listed v deps))
      ≡ (listed v us || (is_http v && (u == v || listed v deps)))
kept_lem u v seen deps us kept = elim (Bool-cases (u == v)) [
  | inr other ↦ rw other (ground arith)
  | inl same ↦
      let here : (not (is_http v) || listed v seen) ≡ false = rw (eq_of_== u v same) at kept in
      ground arith
]

register-Registers :
    (deps seen : List Text) (es : List Entry)
    → ((v : Text) → listed v seen ≡ listed v (urls es))
    → IsDistinct (urls es)
    → Registers deps es (register deps seen es)
unfolding register
register-Registers [] seen es inv d = record { distinct = d; exactly = λ v. ground arith }
register-Registers (u ∷ deps) seen es inv d = elim (Bool-cases (not (is_http u) || listed u seen)) [
  | inl skipped ↦
      let rest = register-Registers deps seen es inv d in
      rw skipped (record {
        distinct = rest.distinct;
        exactly = λ v. rest.exactly v ∙ skipped_lem u v seen deps (urls es) (inv v) skipped;
      })
  | inr kept ↦
      let e : Entry = record { name = sprintf (text "dep-%d") (num (length es) ∷ []); url = u } in
      let here : (v : Text) → listed v (urls (es ++ e ∷ [])) ≡ (listed v (urls es) || u == v) =
        λ v. rw (urls-snoc es e) (listed-snoc v u (urls es)) in
      let next : (v : Text) → (u == v || listed v seen) ≡ listed v (urls (es ++ e ∷ [])) =
        λ v. rw (here v, inv v) (or_comm (u == v) (listed v (urls es))) in
      let fresh : listed u (urls es) ≡ false = ground (arith, inv u) in
      let rest =
        register-Registers deps (u ∷ seen) (es ++ e ∷ []) next
          (rw (urls-snoc es e) (IsDistinct-snoc u (urls es) d fresh)) in
      rw kept (record {
        distinct = rest.distinct;
        exactly = λ v. rest.exactly v ∙ rw (here v) (kept_lem u v seen deps (urls es) kept);
      })
]

-- The repositories of a chart's dependencies are registered: each URL by HTTP or HTTPS exactly once,
-- and none of another kind.
pub dependency_repo_file-urls :
    (deps : List Text)
    → IsDistinct (urls (dependency_repo_file deps))
      × ((u : Text) → listed u (urls (dependency_repo_file deps)) ≡ (is_http u && listed u deps))
unfolding dependency_repo_file
dependency_repo_file-urls deps =
    let all = register-Registers deps [] [] (λ v. refl) tt in (all.distinct, all.exactly)
