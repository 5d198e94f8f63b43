-- ===== src/Codec/Cbor/Fields.antt =====
-- internal/codec/cbor.go: the fields that a map gathers, and what sorting them keeps.
use mathlib.Core.Path.{subst}
use omni_schema.Prelude.{suc, ◌^◌, ◌<◌, ◌≡◌, refl, ap, ◌∙◌, arith, false}
use omni_schema.Prelude.{Bool-cases, inl, inr, List, [], ◌∷◌, length, All}
use omni_schema.Prelude.Bytes.{Text, text_eq, text_eq_iff, text_lt, mem_text}
use omni_schema.Prelude.Result.{Result, ok, err, >>=-ok, ok-injective}
use omni_schema.Uir.Node.{Node, Nodes}
use omni_schema.Codec.Cbor.{CborError}
use omni_schema.Codec.Cbor.Encode.{Field, is_missing, collect, insert_field, sort_fields}
use omni_schema.Codec.Cbor.Decoded.{IsGoNode, IsGoNodes, kept}

abbrev pub GoField : Field → Type 0
GoField f = (length f.0 < 2 ^ 63) × IsGoNode f.1

-- No field has this key.
abbrev pub Apart : Text → List Field → Type 0
Apart k = All (λ (f : Field). text_eq k f.0 ≡ false)

abbrev pub DistinctFields : List Field → Type 0
DistinctFields [] = Unit {0}
DistinctFields (f ∷ fs) = Apart f.0 fs × DistinctFields fs

-- No field has a key that was seen.
abbrev pub Unseen : List Text → List Field → Type 0
Unseen seen = All (λ (f : Field). mem_text f.0 seen ≡ false)

All-insert_field :
    (Q : Field → Type 0) (f : Field) (fs : List Field) → Q f → All Q fs → All Q (insert_field f fs)
unfolding insert_field
All-insert_field Q f [] q h = (q, tt)
All-insert_field Q f (g ∷ gs) q h = elim (Bool-cases (text_lt g.0 f.0)) [
  | inl e ↦ rw e (h.0, All-insert_field Q f gs q h.1)
  | inr e ↦ rw e (q, h)
]

pub All-sort_fields : (Q : Field → Type 0) (fs : List Field) → All Q fs → All Q (sort_fields fs)
unfolding sort_fields
All-sort_fields Q [] h = tt
All-sort_fields Q (f ∷ fs) h = All-insert_field Q f (sort_fields fs) h.0 (All-sort_fields Q fs h.1)

length-insert_field : (f : Field) (fs : List Field) → length (insert_field f fs) ≡ suc (length fs)
unfolding insert_field
length-insert_field f [] = refl
length-insert_field f (g ∷ gs) = ground (arith, length-insert_field f gs)

pub length-sort_fields : (fs : List Field) → length (sort_fields fs) ≡ length fs
unfolding sort_fields
length-sort_fields [] = refl
length-sort_fields (f ∷ fs) =
    length-insert_field f (sort_fields fs) ∙ ap suc (length-sort_fields fs)

text_eq_sym : (s t : Text) → text_eq s t ≡ false → text_eq t s ≡ false
text_eq_sym s t h = ground (arith, text_eq_iff s t, text_eq_iff t s)

DistinctFields-insert_field :
    (f : Field) (fs : List Field)
    → Apart f.0 fs
    → DistinctFields fs
    → DistinctFields (insert_field f fs)
unfolding insert_field
DistinctFields-insert_field f [] a d = (tt, tt)
DistinctFields-insert_field f (g ∷ gs) a d = elim (Bool-cases (text_lt g.0 f.0)) [
  | inl e ↦ rw e (
    All-insert_field _ f gs (text_eq_sym f.0 g.0 a.0) d.0,
    DistinctFields-insert_field f gs a.1 d.1,
  )
  | inr e ↦ rw e (a, d)
]

pub DistinctFields-sort_fields :
    (fs : List Field) → DistinctFields fs → DistinctFields (sort_fields fs)
unfolding sort_fields
DistinctFields-sort_fields [] d = tt
DistinctFields-sort_fields (f ∷ fs) d =
    DistinctFields-insert_field f (sort_fields fs) (All-sort_fields _ fs d.0)
      (DistinctFields-sort_fields fs d.1)

-- The unseen fields behind one that is seen now.
pub Unseen-cons :
    (k : Text) (seen : List Text) (fs : List Field)
    → Apart k fs
    → Unseen seen fs
    → Unseen (k ∷ seen) fs
unfolding mem_text
Unseen-cons k seen [] a u = tt
Unseen-cons k seen (f ∷ fs) a u = (rw a.0 u.0, Unseen-cons k seen fs a.1 u.1)

seen_before :
    (k : Text) (seen : List Text) (fs : List Field)
    → Unseen (k ∷ seen) fs
    → Apart k fs × Unseen seen fs
unfolding mem_text
seen_before k seen [] u = (tt, tt)
seen_before k seen (f ∷ fs) u =
    let (a, b) = seen_before k seen fs u.1 in
    let here : (text_eq k f.0 ≡ false) × (mem_text f.0 seen ≡ false) = ground (arith, u.0) in
    ((here.0, a), (here.1, b))

abbrev Gathered : Nodes → List Text → List Field → Type 0
Gathered ns seen fs = (fs ≡ kept ns) × DistinctFields fs × Unseen seen fs

gather_one :
    (k : Text) (n : Node) (seen : List Text) (rest : List Field) (all : List Field)
    → mem_text k seen ≡ false
    → (rest ≡ all) × DistinctFields rest × Unseen (k ∷ seen) rest
    → ((k, n) ∷ rest ≡ (k, n) ∷ all) × DistinctFields ((k, n) ∷ rest) × Unseen seen ((k, n) ∷ rest)
gather_one k n seen rest all s (p, d, u) =
    let (apart, unseen) = seen_before k seen rest u in
    (ap (λ (t : List Field). (k, n) ∷ t) p, (apart, d), (s, unseen))

-- What the gathering loop returns: the present children, under distinct keys.
pub collect-kept :
    (ns : Nodes) (seen : List Text) (fs : List Field)
    → collect ns seen ≡ ok fs
    → (fs ≡ kept ns) × DistinctFields fs × Unseen seen fs
unfolding collect kept
collect-kept Nodes.none seen fs e =
    subst (λ t. Gathered Nodes.none seen t) (ok-injective e) (refl, tt, tt)
collect-kept (Nodes.more Node.nil ns) seen fs e = cc
collect-kept (Nodes.more (Node.node h cs) ns) seen fs e =
    elim (Bool-cases (is_missing h.presence)) [
      | inl m ↦ rw m (collect-kept ns seen fs (rw m at e))
      | inr m ↦ rw m (elim (Bool-cases (mem_text h.key seen)) [
        | inl s ↦
            let clash : ◌≡◌ {A = Result CborError (List Field)} (err CborError.duplicate_key)
                (ok fs) =
              rw (m, s) at e in
            cc
        | inr s ↦
            let (rest, run, eq) = >>=-ok (collect ns (h.key ∷ seen)) _ (rw (m, s) at e) in
            subst
              (λ (t : List Field).
                (t ≡ (h.key, Node.node h cs) ∷ kept ns) × DistinctFields t × Unseen seen t)
              (ok-injective eq)
              (gather_one h.key (Node.node h cs) seen rest (kept ns) s
                (collect-kept ns (h.key ∷ seen) rest run))
      ])
    ]

pub kept-GoField : (ns : Nodes) → IsGoNodes ns → All GoField (kept ns)
unfolding kept IsGoNodes
kept-GoField Nodes.none g = tt
kept-GoField (Nodes.more Node.nil ns) g = kept-GoField ns g.1
kept-GoField (Nodes.more (Node.node h cs) ns) g = elim (Bool-cases (is_missing h.presence)) [
  | inl e ↦ rw e (kept-GoField ns g.1)
  | inr e ↦ rw e ((g.0.1, g.0), kept-GoField ns g.1)
]

pub Unseen-nil : (fs : List Field) → Unseen [] fs
unfolding mem_text
Unseen-nil [] = tt
Unseen-nil (f ∷ fs) = (refl, Unseen-nil fs)
