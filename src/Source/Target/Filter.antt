-- ===== src/Source/Target/Filter.antt =====
-- What a target filter lets through.
use mathlib.Core.List.{Memᴰ}
use kube_drift.Common.{
  ◌≡◌, refl, ap, ◌∙◌, sym, ◌↔◌, inl, inr, ◌≢◌, arith, Bool, true, Option, none, some, List, [], ◌∷◌,
  Text, ◌==◌, eq_refl, eq_of_==, ◌&&◌, Bool-cases,
}
use kube_drift.Libraries.{Selector, Resource}
use kube_drift.Source.Target.{listed, in_namespaces, labels_of, selected, keeps, filter_loaded}

-- A resource is targeted: its namespace is listed, unless no namespace is; and its labels match,
-- unless there is no selector.
pub record IsTargeted (names : List Text) (sel : Option Selector) (r : Resource) : Type 0 where
  pub namespace : names ≢ [] → Memᴰ r.namespace names
  pub labels : (matches : Selector) → sel ≡ some matches → matches (labels_of r) ≡ true

mem_of_listed : (ns : Text) (names : List Text) → listed ns names ≡ true → Memᴰ ns names
unfolding listed
mem_of_listed ns [] h = cc
mem_of_listed ns (n ∷ names) h = elim (Bool-cases (n == ns)) [
  | inl same ↦ Memᴰ.head (sym (eq_of_== n ns same))
  | inr other ↦ Memᴰ.tail (mem_of_listed ns names (rw other at h))
]

listed_of_mem : (ns : Text) (names : List Text) → Memᴰ ns names → listed ns names ≡ true
unfolding listed
listed_of_mem ns [] m = elim m [ ]
listed_of_mem ns (n ∷ names) (Memᴰ.head e) = rw e (rw (eq_refl n) refl)
listed_of_mem ns (n ∷ names) (Memᴰ.tail m) = let rest = listed_of_mem ns names m in ground arith

both_true : (a b : Bool) → (a && b) ≡ true → (a ≡ true) × (b ≡ true)
both_true a b h = ground arith

in_namespaces_iff :
    (names : List Text) (r : Resource)
    → (in_namespaces names r ≡ true) ↔ (names ≢ [] → Memᴰ r.namespace names)
unfolding in_namespaces
in_namespaces_iff [] r = (λ h full. absurd (full refl), λ h. refl)
in_namespaces_iff (n ∷ names) r = (
  λ h _. mem_of_listed r.namespace (n ∷ names) h,
  λ h. listed_of_mem r.namespace (n ∷ names) (h (λ e. cc)),
)

selected_iff :
    (sel : Option Selector) (r : Resource)
    → (selected sel r ≡ true) ↔ ((f : Selector) → sel ≡ some f → f (labels_of r) ≡ true)
unfolding selected
selected_iff none r = (λ h f e. cc, λ h. refl)
selected_iff (some g) r = (λ h f e. let same : g ≡ f = cc in rw same at h, λ h. h g refl)

keeps_iff :
    (names : List Text) (sel : Option Selector) (r : Resource)
    → (keeps names sel r ≡ true) ↔ IsTargeted names sel r
unfolding keeps
keeps_iff names sel r = (
  λ h.
      let (ns, labels) = both_true _ _ h in
      record {
        namespace = (in_namespaces_iff names r).0 ns;
        labels = (selected_iff sel r).0 labels;
      },
  λ t. rw ((in_namespaces_iff names r).1 t.namespace, (selected_iff sel r).1 t.labels) refl,
)

-- The filtered resources are the targeted ones of the source's. So a resource without a namespace is
-- dropped as soon as a namespace is listed.
pub filter_loaded-IsTargeted :
    (names : List Text) (sel : Option Selector) (rs : List Resource) (r : Resource)
    → Memᴰ r (filter_loaded names sel rs) ↔ Memᴰ r rs × IsTargeted names sel r
unfolding filter_loaded
filter_loaded-IsTargeted names sel [] r = (λ m. elim m [ ], λ p. elim p.0 [ ])
filter_loaded-IsTargeted names sel (s ∷ rs) r =
    let rest = filter_loaded-IsTargeted names sel rs r in
    elim (Bool-cases (keeps names sel s)) [
      | inl kept ↦ rw kept (
        elim [
          | Memᴰ.head e ↦ (Memᴰ.head e, (keeps_iff names sel r).0 (ap (keeps names sel) e ∙ kept))
          | Memᴰ.tail m ↦ let (t, targeted) = rest.0 m in (Memᴰ.tail t, targeted)
        ],
        λ p.
            let (m, targeted) = p in
            elim m [ Memᴰ.head e ↦ Memᴰ.head e | Memᴰ.tail t ↦ Memᴰ.tail (rest.1 (t, targeted)) ],
      )
      | inr dropped ↦ rw dropped (
        λ m. let (t, targeted) = rest.0 m in (Memᴰ.tail t, targeted),
        λ p.
            let (m, targeted) = p in
            elim m [
              | Memᴰ.head e ↦
                  absurd (cc (ap (keeps names sel) e, (keeps_iff names sel r).1 targeted, dropped))
              | Memᴰ.tail t ↦ rest.1 (t, targeted)
            ],
      )
    ]
