-- ===== src/Uir/Presence/Report.antt =====
-- internal/uir/presence.go: what a report holds after any sequence of Add calls.
use Prim.Native.Nat.{max}
use omni_schema.Prelude.{ℕ, ◌≡◌, refl, sym, leb, arith, ◌∙◌, ap, append-nil}
use omni_schema.Prelude.{List, [], ◌∷◌, ◌++◌, append_assoc, Option, some}
use omni_schema.Prelude.Bytes.{Text}
use omni_schema.Uir.Presence.{ConversionKind, severity, ConversionReport, empty_report}
use omni_schema.Uir.Presence.{append_text, add_to, add}

-- One call of Add: a kind, a field and a note.
pub record Entry : Type 0 where
  pub kind : ConversionKind
  pub field : Text
  pub note : Text

-- The calls of a run, in order.
unfoldable pub add_all : Option ConversionReport → List Entry → Option ConversionReport
add_all r [] = r
add_all r (e ∷ es) = add_all (add r e.kind e.field e.note) es

unfoldable pub worst : ℕ → List Entry → ℕ
worst k [] = k
worst k (e ∷ es) = worst (max k (severity e.kind)) es

abbrev named : Text → List Text → List Text
named [] rest = rest
named (b ∷ bs) rest = (b ∷ bs) ∷ rest

-- The fields that the calls name, in order.
unfoldable pub named_fields : List Entry → List Text
named_fields [] = []
named_fields (e ∷ es) = named e.field (named_fields es)

-- The report summarises what was added to it.
abbrev pub Summary : ConversionReport → ℕ → List Text → Type 0
Summary r k fs = (severity r.kind ≡ k) × (r.lossy ≡ leb 2 k) × (r.fields ≡ fs)

append_named : (fs : List Text) (t : Text) → append_text fs t ≡ fs ++ named t []
append_named fs [] = sym (append-nil fs)
append_named fs (b ∷ bs) = refl

add_to_kind :
    (r : ConversionReport) (k : ℕ) (c : ConversionKind) (f n : Text)
    → severity r.kind ≡ k
    → r.lossy ≡ leb 2 k
    → (severity (add_to r c f n).kind ≡ max k (severity c))
      × ((add_to r c f n).lossy ≡ leb 2 (max k (severity c)))
unfolding add_to
add_to_kind r k ConversionKind.lossless f n h l = ground arith
add_to_kind r k ConversionKind.safe_coerce f n h l = ground arith
add_to_kind r k ConversionKind.lossy f n h l = ground arith
add_to_kind r k ConversionKind.unsupported f n h l = ground arith

add_to-Summary :
    (r : ConversionReport) (k : ℕ) (fs : List Text) (e : Entry)
    → Summary r k fs
    → Summary (add_to r e.kind e.field e.note) (max k (severity e.kind)) (fs ++ named e.field [])
unfolding add_to
add_to-Summary r k fs e (hk, hl, hf) =
    let (a, b) = add_to_kind r k e.kind e.field e.note hk hl in
    (a, b, ap (λ t. append_text t e.field) hf ∙ append_named fs e.field)

named-append : (t : Text) (rest : List Text) → named t [] ++ rest ≡ named t rest
named-append [] rest = refl
named-append (b ∷ bs) rest = refl

add_all-from :
    (r : ConversionReport) (k : ℕ) (fs : List Text) (es : List Entry)
    → Summary r k fs
    → (r' : ConversionReport) × (add_all (some r) es ≡ some r')
      × Summary r' (worst k es) (fs ++ named_fields es)
unfolding add add_all worst named_fields
add_all-from r k fs [] s = (r, refl, rw append-nil s)
add_all-from r k fs (e ∷ es) s =
    let (r', run, sum) =
      add_all-from (add_to r e.kind e.field e.note) (max k (severity e.kind))
        (fs ++ named e.field []) es (add_to-Summary r k fs e s) in
    (r', run, rw (append_assoc, named-append) at sum)

-- After any sequence of Add calls on a fresh report its kind is the gravest one added, it is marked
-- lossy exactly when that kind is lossy or unsupported, and its fields are those named, in order.
pub add_all-Summary :
    (es : List Entry)
    → (r : ConversionReport) × (add_all (some empty_report) es ≡ some r)
      × Summary r (worst 0 es) (named_fields es)
add_all-Summary es = add_all-from empty_report 0 [] es (refl, refl, refl)
