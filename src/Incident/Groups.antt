-- ===== src/Incident/Groups.antt =====
-- Which alerts stand in which group.
use aegis_ecosystem.Prelude.{
  ℕ, ◌≡◌, refl, sym, ap, ◌∙◌, Option, none, some, List, [], ◌∷◌, ◌++◌, filter, is_nil,
  if◌then◌else◌, ◌==◌, eq_text, eq_nat, eq_pair, Bool-cases, Option-cases, inl, inr, ==_iff,
}
use mathlib.Core.List.{append-nil, append_assoc}
use aegis_ecosystem.Prelude.Dict.{Dict, lookup, lookup-insert}
use aegis_ecosystem.Incident.{Alert, Key, group_key, append_to, append_all, suggest_groups}

-- A group that is not there until it has an alert.
abbrev grown : Option (List Alert) → List Alert → Option (List Alert)
grown none alerts = if is_nil alerts then none else some alerts
grown (some old) alerts = some (old ++ alerts)

lookup-append_to :
    (key k : Key) (alert : Alert) (groups : Dict Key (List Alert))
    → lookup k (append_to key alert groups)
      ≡ (if key == k then grown (lookup key groups) (alert ∷ []) else lookup k groups)
unfolding append_to
lookup-append_to key k alert groups = elim (Option-cases (lookup key groups)) [
  | inl e ↦ rw (e, append_to) (lookup-insert key k (alert ∷ []) groups)
  | inr (old, e) ↦ rw (e, append_to) (lookup-insert key k (old ++ alert ∷ []) groups)
]

grown-grown :
    (o : Option (List Alert)) (a : Alert) (alerts : List Alert)
    → grown (grown o (a ∷ [])) alerts ≡ grown o (a ∷ alerts)
grown-grown none a alerts = refl
grown-grown (some old) a alerts = ap some (append_assoc old (a ∷ []) alerts)

grown-nil : (o : Option (List Alert)) → grown o [] ≡ o
grown-nil none = refl
grown-nil (some old) = ap some (append-nil old)

lookup-append_all :
    (window_min : ℕ) (k : Key) (alerts : List Alert) (groups : Dict Key (List Alert))
    → lookup k (append_all window_min alerts groups)
      ≡ grown (lookup k groups) (filter (λ a. group_key window_min a == k) alerts)
unfolding append_all
lookup-append_all window_min k [] groups = sym (grown-nil (lookup k groups))
lookup-append_all window_min k (a ∷ alerts) groups =
    let key = group_key window_min a in
    let others = filter (λ x. group_key window_min x == k) alerts in
    lookup-append_all window_min k alerts (append_to key a groups)
    ∙ (ap (λ o. grown o others) (lookup-append_to key k a groups) ∙ elim (Bool-cases (key == k)) [
      | inr e ↦ rw e refl
      | inl e ↦
          let same : key ≡ k = (==_iff key k).0 e in
          rw e (
            ap (λ x. grown (grown (lookup x groups) (a ∷ [])) others) same
            ∙ grown-grown (lookup k groups) a others)
    ])

-- The group under a key is the alerts that have the key, each once and in their order; a key that no
-- alert has is no group.
pub lookup-suggest_groups :
    (alerts : List Alert) (window_min : ℕ) (k : Key)
    → lookup k (suggest_groups alerts window_min) ≡ (
        if is_nil (filter (λ a. group_key window_min a == k) alerts)
        then none
        else some (filter (λ a. group_key window_min a == k) alerts))
unfolding suggest_groups lookup
lookup-suggest_groups alerts window_min k = lookup-append_all window_min k alerts []
