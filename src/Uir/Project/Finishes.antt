-- ===== src/Uir/Project/Finishes.antt =====
-- internal/uir/project.go: the steps of the projection that use no fuel, so that none runs out of it.
use omni_schema.Prelude.{◌≡◌, ◌≢◌, refl, ap, Bool, true, false}
use omni_schema.Prelude.{List, if◌then◌else◌}
use omni_schema.Prelude.Bytes.{Text, mem_text}
use omni_schema.Prelude.Result.{Result, ok, err}
use omni_schema.Uir.Presence.{ConversionReport}
use omni_schema.Uir.Node.{Node, Nodes, Head}
use omni_schema.Uir.Coerce.{Host, CoerceError, ProjectOptions, UnknownFieldPolicy}
use omni_schema.Uir.Coerce.Value.{Reported}
use omni_schema.Uir.Project.{ProjectError, ◌▷◌, index_into, apply_missing, has_default, is_required}
use omni_schema.Uir.Project.Parts.{with_context, add_unknown, unknown_fields_of, is_strict_unknown}

-- A computation that does not run out of fuel.
unfoldable pub Finishes : {A : Type 0} → ConversionReport × Result ProjectError A → Type 0
Finishes m = m.1 ≢ err ProjectError.out_of_fuel

pub ok-Finishes : {A : Type 0} (r : ConversionReport) (a : A) → Finishes (r, ok a)
unfolding Finishes
ok-Finishes r a p = cc

pub err-Finishes :
    (A : Type 0) (r : ConversionReport) (e : ProjectError)
    → e ≢ ProjectError.out_of_fuel
    → Finishes {A = A} (r, err e)
unfolding Finishes
err-Finishes A r e h p = h cc

pub Finishes-▷ :
    {A B : Type 0} (m : ConversionReport × Result ProjectError A)
    (k : ConversionReport → A → ConversionReport × Result ProjectError B)
    → Finishes m
    → ((r : ConversionReport) (a : A) → m.1 ≡ ok a → Finishes (k r a))
    → Finishes (m ▷ k)
unfolding Finishes
Finishes-▷ (r, ok a) k h g = g r a refl
Finishes-▷ (r, err e) k h g = err-Finishes _ r e (λ p. h (ap err p))

pub Finishes-if :
    {A : Type 0} (b : Bool) (m n : ConversionReport × Result ProjectError A)
    → Finishes m
    → Finishes n
    → Finishes (if b then m else n)
Finishes-if true m n h k = h
Finishes-if false m n h k = k

pub result_if :
    {A : Type 0} (b : Bool) (x y : Result ProjectError A) (r : ConversionReport)
    → Finishes (r, x)
    → Finishes (r, y)
    → Finishes (r, if b then x else y)
result_if true x y r h k = h
result_if false x y r h k = k

pub nil_pointer-fine : ProjectError.nil_pointer ≢ ProjectError.out_of_fuel
nil_pointer-fine p = cc

pub missing-fine : (key : Text) → ProjectError.missing_required key ≢ ProjectError.out_of_fuel
missing-fine key p = cc

unknown-fine : (key : Text) → ProjectError.unknown_field key ≢ ProjectError.out_of_fuel
unknown-fine key p = cc

pub null-fine : (key : Text) → ProjectError.null_required key ≢ ProjectError.out_of_fuel
null-fine key p = cc

pub array-fine : (key : Text) → ProjectError.expected_array key ≢ ProjectError.out_of_fuel
array-fine key p = cc

pub field-fine :
    (key : Text) (e : CoerceError) → ProjectError.field_error key e ≢ ProjectError.out_of_fuel
field-fine key e p = cc

pub element-fine :
    (key : Text) (e : CoerceError) → ProjectError.element_error key e ≢ ProjectError.out_of_fuel
element-fine key e p = cc

missing_branches :
    (default required null : Bool) (r r' : ConversionReport) (m n : Node) (key : Text)
    → Finishes (
        if default
        then (r', ok m)
        else if required
        then (r, err (ProjectError.missing_required key))
        else if null
        then (r, ok n)
        else (r, ok Node.nil))
missing_branches true required null r r' m n key = ok-Finishes r' m
missing_branches false true null r r' m n key = err-Finishes _ r _ (missing-fine key)
missing_branches false false true r r' m n key = ok-Finishes r n
missing_branches false false false r r' m n key = ok-Finishes r Node.nil

pub apply_missing-Finishes :
    (host : Host) (opt : ProjectOptions) (report : ConversionReport) (h : Head) (name : Text)
    → Finishes (apply_missing host opt report h name)
unfolding apply_missing
apply_missing-Finishes host opt report h name =
    missing_branches (has_default h) (is_required h) opt.emit_null_for_missing _ _ _ _ _

pub with_context-Finishes :
    (context : CoerceError → ProjectError) (m : Reported)
    → ((e : CoerceError) → context e ≢ ProjectError.out_of_fuel)
    → Finishes (with_context context m)
with_context-Finishes context (r, ok v) h = ok-Finishes r v
with_context-Finishes context (r, err e) h = err-Finishes _ r (context e) (h e)

pub index_into-Finishes :
    (r : ConversionReport) (ns : Nodes) (idx : List (Text × Node)) → Finishes (r, index_into ns idx)
unfolding index_into
index_into-Finishes r Nodes.none idx = ok-Finishes r idx
index_into-Finishes r (Nodes.more Node.nil ns) idx = err-Finishes _ r _ nil_pointer-fine
index_into-Finishes r (Nodes.more (Node.node h cs) ns) idx = index_into-Finishes r ns _

add_unknown-Finishes :
    (r : ConversionReport) (policy : UnknownFieldPolicy) (ns : Nodes) (seen : List Text)
    (out : Nodes)
    → Finishes (r, add_unknown policy ns seen out)
unfolding add_unknown
add_unknown-Finishes r policy Nodes.none seen out = ok-Finishes r out
add_unknown-Finishes r policy (Nodes.more Node.nil ns) seen out =
    err-Finishes _ r _ nil_pointer-fine
add_unknown-Finishes r policy (Nodes.more (Node.node h cs) ns) seen out =
    result_if (mem_text h.key seen) _ _ r (add_unknown-Finishes r policy ns seen out) (
      result_if (is_strict_unknown policy) _ _ r (err-Finishes _ r _ (unknown-fine h.key))
        (add_unknown-Finishes r policy ns seen _))

pub unknown_fields_of-Finishes :
    (r : ConversionReport) (policy : UnknownFieldPolicy) (ns : Nodes) (seen : List Text)
    (out : Nodes)
    → Finishes (r, unknown_fields_of policy ns seen out)
unfolding unknown_fields_of
unknown_fields_of-Finishes r UnknownFieldPolicy.ignore ns seen out = ok-Finishes r out
unknown_fields_of-Finishes r UnknownFieldPolicy.strict ns seen out =
    add_unknown-Finishes r UnknownFieldPolicy.strict ns seen out
unknown_fields_of-Finishes r UnknownFieldPolicy.preserve ns seen out =
    add_unknown-Finishes r UnknownFieldPolicy.preserve ns seen out
