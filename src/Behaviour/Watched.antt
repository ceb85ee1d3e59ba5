-- ===== src/Behaviour/Watched.antt =====
-- The pairs that the correlation watches are pairs on which the static rule S002 fires.
use aegis_ecosystem.Prelude.{
  ◌≡◌, refl, sym, ap, ◌∙◌, Bool, true, false, not, ◌&&◌, ◌||◌, List, [], ◌∷◌, ◌++◌, arith, Text,
  any, all, is_nil, ◌==◌, ==_iff, eq_text, text_eq, lower, strip, replace_char, Bool-cases,
  Option-cases, List-cases, inl, inr,
}
use aegis_ecosystem.Behaviour.{Event}
use aegis_ecosystem.Behaviour.Pairs.{
  ParentChild, suspicious_parent_child, programs, scripts, base, last_part, strip_suffix,
  without_extension, rule_stem, stem, proc_match, triggered_by, first_row,
  rule_suspicious_parent_child, is_watched,
}

-- more extensions change nothing where the rest of them fits nothing
without_extension-append :
    (exts more : List Text) (b x : Text)
    → without_extension exts b ≡ x
    → without_extension more x ≡ x
    → without_extension (exts ++ more) b ≡ x
unfolding without_extension
without_extension-append [] more b x e plain = ap (without_extension more) e ∙ plain
without_extension-append (ext ∷ exts) more b x e plain = elim (Option-cases (strip_suffix ext b)) [
  | inl f ↦
      rw (f, without_extension)
        (without_extension-append exts more b x (rw (f, without_extension) at e) plain)
  | inr (t, f) ↦ rw (f, without_extension) (rw (f, without_extension) at e)
]

-- A name of the table has a stem, on which the two ways to make stems agree.
abbrev is_plain : Text → Bool
is_plain p =
    not (is_nil (stem p)) && (rule_stem p == stem p && without_extension scripts (stem p) == stem p)

all_plain :
    all (λ row. all is_plain row.parents && all is_plain row.children) suspicious_parent_child
    ≡ true
unfolding stem rule_stem without_extension strip_suffix base last_part text_eq lower strip
    replace_char
all_plain = refl

proc_match-stem :
    (name p : Text) → is_plain p ≡ true → (stem p == stem name) ≡ true → proc_match name p ≡ true
unfolding proc_match rule_stem stem
proc_match-stem name p plain same =
    let agree : rule_stem p ≡ stem p = (==_iff (rule_stem p) (stem p)).0 (ground arith) in
    let bare : without_extension scripts (stem p) ≡ stem p =
      (==_iff (without_extension scripts (stem p)) (stem p)).0 (ground arith) in
    let e : stem name ≡ stem p = sym ((==_iff (stem p) (stem name)).0 same) in
    (==_iff (rule_stem name) (rule_stem p)).1
      (without_extension-append programs scripts (base name) (stem p) e bare ∙ sym agree)

any-proc_match :
    (name : Text) (ps : List Text)
    → all is_plain ps ≡ true
    → any (λ p. stem p == stem name) ps ≡ true
    → any (proc_match name) ps ≡ true
any-proc_match name [] plain found = found
any-proc_match name (p ∷ ps) plain found = elim (Bool-cases (stem p == stem name)) [
  | inl here ↦ rw (proc_match-stem name p (ground arith) here) refl
  | inr there ↦ let rest = any-proc_match name ps (ground arith) (rw there at found) in ground arith
]

first_row-triggered :
    (event : Event) (rows : List ParentChild)
    → all (λ row. all is_plain row.parents && all is_plain row.children) rows ≡ true
    → any
        (λ row.
          any (λ p. stem p == stem event.parent_process_name) row.parents
          && any (λ c. stem c == stem event.process_name) row.children)
        rows
      ≡ true
    → (first_row event rows).triggered ≡ true
unfolding first_row triggered_by
first_row-triggered event [] plain found = absurd (ground arith)
first_row-triggered event (row ∷ rows) plain found =
    elim (Bool-cases (
      any (proc_match event.parent_process_name) row.parents
      && any (proc_match event.process_name) row.children)) [
        | inl here ↦ rw (here, first_row) refl
        | inr there ↦
            let parents = any-proc_match event.parent_process_name row.parents (ground arith) in
            let children = any-proc_match event.process_name row.children (ground arith) in
            let rest = first_row-triggered event rows (ground arith) (ground arith) in
            rw (there, first_row) rest
      ]

no_stem : stem [] ≡ []
unfolding stem without_extension strip_suffix base last_part lower strip replace_char text_eq
no_stem = refl

any-empty : (ps : List Text) → all is_plain ps ≡ true → any (λ p. stem p == []) ps ≡ false
any-empty [] plain = refl
any-empty (p ∷ ps) plain =
    let rest = any-empty ps (ground arith) in
    elim (Bool-cases (stem p == [])) [
      | inr e ↦ rw e rest
      | inl e ↦
          let gone : stem p ≡ [] = (==_iff (stem p) []).0 e in
          let some_stem : not (is_nil (stem p)) ≡ true = ground arith in
          absurd (let bad = rw gone at some_stem in ground arith)
    ]

-- no name without a stem is in the table
rows-empty :
    (name : Text) (rows : List ParentChild)
    → all (λ row. all is_plain row.parents && all is_plain row.children) rows ≡ true
    → (any
          (λ row. any (λ p. stem p == []) row.parents && any (λ c. stem c == name) row.children)
          rows
        ≡ false)
      × (any
            (λ row. any (λ p. stem p == name) row.parents && any (λ c. stem c == []) row.children)
            rows
          ≡ false)
rows-empty name [] plain = (refl, refl)
rows-empty name (row ∷ rows) plain =
    let parents = any-empty row.parents (ground arith) in
    let children = any-empty row.children (ground arith) in
    let (a, b) = rows-empty name rows (ground arith) in (ground arith, ground arith)

-- Every event whose parent and child the correlation watches is one on which S002 fires.
pub is_watched-triggered :
    (event : Event)
    → is_watched (stem event.parent_process_name) (stem event.process_name) ≡ true
    → (rule_suspicious_parent_child event).triggered ≡ true
unfolding is_watched rule_suspicious_parent_child
is_watched-triggered event watched = elim (List-cases event.parent_process_name) [
  | inl e ↦ absurd (
      let no_parent = (rows-empty (stem event.process_name) suspicious_parent_child all_plain).0 in
      let found = rw (e, no_stem) at watched in ground arith)
  | inr (c, s, e) ↦ elim (List-cases event.process_name) [
    | inl f ↦ absurd (
        let no_child =
          (rows-empty (stem event.parent_process_name) suspicious_parent_child all_plain).1 in
        let found = rw (f, no_stem) at watched in ground arith)
    | inr (d, r, f) ↦
        let fires = first_row-triggered event suspicious_parent_child all_plain watched in
        let a : is_nil event.parent_process_name ≡ false = ap is_nil e in
        let b : is_nil event.process_name ≡ false = ap is_nil f in
        let named : (is_nil event.parent_process_name || is_nil event.process_name) ≡ false =
          rw (a, b) refl in
        rw (named, rule_suspicious_parent_child) fires
  ]
]
