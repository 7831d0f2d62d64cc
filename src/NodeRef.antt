-- ===== src/NodeRef.antt =====
-- References to nodes of the memory graph as texts: src/memory/contracts/graph-node-ref.ts, with the
-- kinds of src/memory/types.ts.
use Prim.Native.Char.{code}
use text.Mathlib.TextEquality.{Char-path}
use mathlib.Core.Option
use maids_claw.Common.{
  ◌≡◌, refl, sym, ap, ◌∙◌, List, [], ◌∷◌, Option, none, some, String, ◌==◌, ==_iff, str_eq, eq_iff,
  if◌then◌else◌, find_first, Result, ok, throw, inl, inr, ◌↔◌, arith, Option-cases, Bool-cases,
}
use maids_claw.Common.Maps.{some_of}

pub data NodeRefKind : Type 0 where
  event : NodeRefKind
  entity : NodeRefKind
  fact : NodeRefKind
  assertion : NodeRefKind
  evaluation : NodeRefKind
  commitment : NodeRefKind
  episode : NodeRefKind

pub record GraphNodeRef : Type 0 where
  pub kind : NodeRefKind
  pub id : String

pub data NodeRefFault : Type 0 where
  invalid_format : NodeRefFault
  unknown_kind : NodeRefFault

abbrev pub kind_name : NodeRefKind → String
kind_name event = "event"
kind_name entity = "entity"
kind_name fact = "fact"
kind_name assertion = "assertion"
kind_name evaluation = "evaluation"
kind_name commitment = "commitment"
kind_name episode = "episode"

abbrev pub node_ref_kinds : List NodeRefKind
node_ref_kinds = event ∷ entity ∷ fact ∷ assertion ∷ evaluation ∷ commitment ∷ episode ∷ []

-- one text and then another
abbrev pub concat : String → String → String
concat String.[] t = t
concat (String.◌∷◌ c s) t = String.◌∷◌ c (concat s t)

-- what stands before the first colon (`indexOf`, `slice(0, colonIndex)`) and after it
abbrev pub split_colon : String → Option (String × String)
split_colon String.[] = none
split_colon (String.◌∷◌ c s) =
    if code c == 58
    then some ("", s)
    else Option.map (λ (w : String × String). (String.◌∷◌ c w.0, w.1)) (split_colon s)

abbrev pub with_kind : String → Option NodeRefKind → Result NodeRefFault GraphNodeRef
with_kind id none = throw unknown_kind
with_kind id (some kind) = ok (record { kind = kind; id = id })

abbrev pub of_parts : Option (String × String) → Result NodeRefFault GraphNodeRef
of_parts none = throw invalid_format
of_parts (some (kind, id)) =
    with_kind id (find_first (λ k. str_eq (kind_name k) kind) node_ref_kinds)

unfoldable pub parse_graph_node_ref : String → Result NodeRefFault GraphNodeRef
parse_graph_node_ref raw = of_parts (split_colon raw)

unfoldable pub serialize_graph_node_ref : GraphNodeRef → String
serialize_graph_node_ref ref = concat (kind_name ref.kind) (concat ":" ref.id)

parses :
    (kind : NodeRefKind) (id : String)
    → parse_graph_node_ref (concat (kind_name kind) (concat ":" id))
      ≡ ok (record { kind = kind; id = id })
unfolding parse_graph_node_ref
parses event id = refl
parses entity id = refl
parses fact id = refl
parses assertion id = refl
parses evaluation id = refl
parses commitment id = refl
parses episode id = refl

split_colon-some :
    (raw kind id : String) → split_colon raw ≡ some (kind, id) → concat kind (concat ":" id) ≡ raw
split_colon-some String.[] kind id h = absurd (cc h)
split_colon-some (String.◌∷◌ c s) kind id h = elim (Bool-cases (code c == 58)) [
  | inl colon ↦
      let at : ("", s) ≡ (kind, id) = some_of (rw colon at h) in
      ap (λ w. concat w.0 (concat ":" w.1)) (sym at)
      ∙ ap (λ d. String.◌∷◌ d s) (sym (Char-path c ":" ((==_iff (code c) 58).0 colon)))
  | inr other ↦ elim (Option-cases (split_colon s)) [
    | inl missing ↦ absurd (cc (rw missing at (rw other at h)))
    | inr ((k, i), there) ↦
        let at : (String.◌∷◌ c k, i) ≡ (kind, id) = some_of (rw there at (rw other at h)) in
        ap (λ w. concat w.0 (concat ":" w.1)) (sym at)
        ∙ ap (String.◌∷◌ c) (split_colon-some s k i there)
  ]
]

find_kind :
    (kind : String) (k : NodeRefKind) (ks : List NodeRefKind)
    → find_first (λ j. str_eq (kind_name j) kind) ks ≡ some k
    → kind_name k ≡ kind
find_kind kind k [] h = absurd (cc h)
find_kind kind k (j ∷ js) h = elim (Bool-cases (str_eq (kind_name j) kind)) [
  | inl here ↦ ap kind_name (sym (some_of (rw here at h))) ∙ (eq_iff (kind_name j) kind).0 here
  | inr other ↦ find_kind kind k js (rw other at h)
]

-- Parsing a text gives a reference exactly when the text is what that reference is printed as.
pub parse-serialize :
    (raw : String) (ref : GraphNodeRef)
    → (parse_graph_node_ref raw ≡ ok ref) ↔ (serialize_graph_node_ref ref ≡ raw)
unfolding parse_graph_node_ref serialize_graph_node_ref
parse-serialize raw ref =
    (printed, λ same. ap parse_graph_node_ref (sym same) ∙ parses ref.kind ref.id)
  where
    ok_of : {a b : GraphNodeRef} → Path (Result NodeRefFault GraphNodeRef) (ok a) (ok b) → a ≡ b
    ok_of {a} {b} e = ground arith

    printed : parse_graph_node_ref raw ≡ ok ref → serialize_graph_node_ref ref ≡ raw
    printed h = elim (Option-cases (split_colon raw)) [
      | inl missing ↦ absurd (cc (rw missing at h))
      | inr ((kind, id), there) ↦
          elim (Option-cases (find_first (λ k. str_eq (kind_name k) kind) node_ref_kinds)) [
            | inl unknown ↦ absurd (cc (rw unknown at (rw there at h)))
            | inr (k, known) ↦
                let parsed : Path (Result NodeRefFault GraphNodeRef)
                    (ok (record { kind = k; id = id })) (ok ref) =
                  sym (rw (there) (rw known)) ∙ h in
                ap serialize_graph_node_ref (sym (ok_of parsed))
                ∙ ap (λ s. concat s (concat ":" id)) (find_kind kind k node_ref_kinds known)
                ∙ split_colon-some raw kind id there
          ]
    ]
