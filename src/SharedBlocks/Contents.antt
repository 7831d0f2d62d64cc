-- ===== src/SharedBlocks/Contents.antt =====
-- A block as its paths and their contents, and what each operation of a patch does to it.
use mathlib.Core.Option
use maids_claw.Common.{
  ℕ, ◌≡◌, refl, sym, ap, ◌∙◌, Bool, true, false, not, ◌&&◌, List, [], ◌∷◌, Option, none, some,
  String, ◌==◌, str_eq, eq_iff, if◌then◌else◌, map, select, find_first, any_of, All, All-imp, inl,
  inr, Bool-cases, arith,
}
use maids_claw.Common.Maps.{some_of}
use maids_claw.SharedBlocks.{SharedBlockSection, is_section, upsert_rows}

abbrev Rows : Type 0
Rows = List SharedBlockSection

-- the content that a table holds for a path of a block
abbrev pub content_in : ℕ → String → List SharedBlockSection → Option String
content_in b p rows =
    Option.map (λ (s : SharedBlockSection). s.content) (find_first (is_section b p) rows)

-- `id` is a primary key
abbrev pub IsKeyed : List SharedBlockSection → Type 0
IsKeyed [] = Unit
IsKeyed (x ∷ xs) = All (λ (y : SharedBlockSection). (x.id == y.id) ≡ false) xs × IsKeyed xs

abbrev pub same_place : ℕ → String → ℕ → String → Bool
same_place b p c q = b == c && str_eq p q

places :
    (b : ℕ) (p : String) (c : ℕ) (q : String) (x : SharedBlockSection)
    → is_section b p x ≡ true
    → is_section c q x ≡ same_place b p c q
places b p c q x h = ground (arith, eq_iff x.section_path p, eq_iff x.section_path q, eq_iff p q)

found_all {κ} :
    (P : SharedBlockSection → Type κ) (p : SharedBlockSection → Bool) (rows : Rows)
    (e : SharedBlockSection)
    → All P rows
    → find_first p rows ≡ some e
    → P e
found_all P p [] e all h = absurd (cc h)
found_all P p (x ∷ xs) e (px, all) h = elim (Bool-cases (p x)) [
  | inl here ↦ rw (← some_of (rw here at h)) px
  | inr later ↦ found_all P p xs e all (rw later at h)
]

pub content_in-append :
    (new_id b : ℕ) (path content : String) (now : ℕ) (rows : Rows) (c : ℕ) (q : String)
    → find_first (is_section b path) rows ≡ none
    → content_in c q (upsert_rows new_id b path content now none rows)
      ≡ (if same_place b path c q then some content else content_in c q rows)
content_in-append new_id b path content now [] c q missing = ground arith
content_in-append new_id b path content now (x ∷ xs) c q missing =
    elim (Bool-cases (is_section b path x)) [
      | inl here ↦ absurd (cc (rw here at missing))
      | inr away ↦ elim (Bool-cases (is_section c q x)) [
        | inl asked ↦
            let apart : same_place b path c q ≡ false =
              ground (arith, eq_iff x.section_path path, eq_iff x.section_path q, eq_iff path q) in
            rw asked (rw apart)
        | inr unasked ↦
            rw unasked (content_in-append new_id b path content now xs c q (rw away at missing))
      ]
    ]

-- rows of other identifiers stay
untouched :
    (id : ℕ) (f : SharedBlockSection → SharedBlockSection) (rows : Rows)
    → All (λ (y : SharedBlockSection). (id == y.id) ≡ false) rows
    → map (λ s. if s.id == id then f s else s) rows ≡ rows
untouched id f [] all = refl
untouched id f (x ∷ xs) (h, all) =
    let other : (x.id == id) ≡ false = ground arith in rw other (ap (◌∷◌ x) (untouched id f xs all))

pub content_in-update :
    (new_id b : ℕ) (path content : String) (now : ℕ) (rows : Rows) (c : ℕ) (q : String)
    (e : SharedBlockSection)
    → IsKeyed rows
    → find_first (is_section b path) rows ≡ some e
    → content_in c q (upsert_rows new_id b path content now (some e) rows)
      ≡ (if same_place b path c q then some content else content_in c q rows)
content_in-update new_id b path content now [] c q e keyed there = absurd (cc there)
content_in-update new_id b path content now (x ∷ xs) c q e (apart, keyed) there =
    elim (Bool-cases (is_section b path x)) [
      | inl here ↦
          let mine : x ≡ e = some_of (rw here at there) in
          let same_id : (x.id == e.id) ≡ true =
            ap (λ (z : SharedBlockSection). x.id == z.id) (sym mine) ∙ ground arith in
          let apart_e : All (λ (y : SharedBlockSection). (e.id == y.id) ≡ false) xs =
            All-imp (λ y. (x.id == y.id) ≡ false) (λ y. (e.id == y.id) ≡ false) xs
              (λ y h. sym (ap (λ (z : SharedBlockSection). z.id == y.id) mine) ∙ h) apart in
          rw same_id (
            rw
              (untouched e.id (λ s. record s { content = content; title = ""; updated_at = now }) xs
                apart_e)
              (elim (Bool-cases (same_place b path c q)) [
                | inl same ↦ rw same (rw (places b path c q x here ∙ same))
                | inr other ↦ rw other (rw (places b path c q x here ∙ other))
              ]))
      | inr away ↦
          let later : find_first (is_section b path) xs ≡ some e = rw away at there in
          let other : (x.id == e.id) ≡ false =
            found_all (λ y. (x.id == y.id) ≡ false) (is_section b path) xs e apart later in
          rw other (elim (Bool-cases (is_section c q x)) [
            | inl asked ↦
                let elsewhere : same_place b path c q ≡ false =
                  ground
                    (arith, eq_iff x.section_path path, eq_iff x.section_path q, eq_iff path q) in
                rw asked (rw elsewhere)
            | inr unasked ↦
                rw unasked (content_in-update new_id b path content now xs c q e keyed later)
          ])
    ]

pub content_in-delete :
    (b : ℕ) (path : String) (rows : Rows) (c : ℕ) (q : String)
    → content_in c q (select (λ s. not (is_section b path s)) rows)
      ≡ (if same_place b path c q then none else content_in c q rows)
content_in-delete b path [] c q = ground arith
content_in-delete b path (x ∷ xs) c q = elim (Bool-cases (is_section b path x)) [
  | inl here ↦ rw here (
      content_in-delete b path xs c q ∙ elim (Bool-cases (same_place b path c q)) [
        | inl same ↦ rw same
        | inr other ↦ rw other (rw (places b path c q x here ∙ other))
      ])
  | inr away ↦ elim (Bool-cases (is_section c q x)) [
    | inl asked ↦
        let apart : same_place b path c q ≡ false =
          ground (arith, eq_iff x.section_path path, eq_iff x.section_path q, eq_iff path q) in
        rw away (rw asked (rw apart))
    | inr unasked ↦ rw away (rw unasked (content_in-delete b path xs c q))
  ]
]

content_in-missing :
    (b : ℕ) (p : String) (rows : Rows)
    → any_of (is_section b p) rows ≡ false
    → content_in b p rows ≡ none
content_in-missing b p [] h = refl
content_in-missing b p (x ∷ xs) h =
    let away : is_section b p x ≡ false = ground arith in
    rw away (content_in-missing b p xs (rw away at h))

-- what stood at the source stands at the target
pub content_in-rename :
    (b : ℕ) (source target : String) (now : ℕ) (rows : Rows) (c : ℕ) (q : String)
    → any_of (is_section b target) rows ≡ false
    → content_in c q (
        map
          (λ s.
            if is_section b source s
            then record s { section_path = target; updated_at = now }
            else s)
          rows)
      ≡ (if same_place b target c q
          then content_in b source rows
          else if same_place b source c q
          then none
          else content_in c q rows)
content_in-rename b source target now [] c q free = ground arith
content_in-rename b source target now (x ∷ xs) c q free =
    let not_target : is_section b target x ≡ false = ground arith in
    let rest : any_of (is_section b target) xs ≡ false = rw not_target at free in
    elim (Bool-cases (is_section b source x)) [
      | inl here ↦ rw here (elim (Bool-cases (same_place b target c q)) [
        | inl same ↦
            let hit : (x.block_id == c && str_eq target q) ≡ true = ground arith in rw hit (rw same)
        | inr other ↦
            let missed : (x.block_id == c && str_eq target q) ≡ false = ground arith in
            rw missed (
              content_in-rename b source target now xs c q rest
              ∙ rw other (elim (Bool-cases (same_place b source c q)) [
                | inl gone ↦ rw gone
                | inr kept ↦ rw kept (rw (places b source c q x here ∙ kept))
              ]))
      ])
      | inr away ↦ rw away (elim (Bool-cases (is_section c q x)) [
        | inl asked ↦
            let not_to : same_place b target c q ≡ false =
              ground
                (arith, eq_iff x.section_path target, eq_iff x.section_path q, eq_iff target q) in
            let not_from : same_place b source c q ≡ false =
              ground
                (arith, eq_iff x.section_path source, eq_iff x.section_path q, eq_iff source q) in
            rw asked (rw not_to (rw not_from))
        | inr unasked ↦ rw unasked (content_in-rename b source target now xs c q rest)
      ])
    ]
