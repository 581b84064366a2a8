-- ===== src/Contracts/Canonical.antt =====
-- packages/contracts-python/src/changeops_contracts/canonical.py. `json.dumps`, `hashlib.sha256`
-- and pydantic's `model_dump(mode="json")` are other code, so they are fields of `Codec`.
use Prim.Native.Char.{code}
use enterprise_change_ops.Base.{
  ℕ, zero, suc, String, concat, Option, none, some, true, false, nat_eqb,
}
use enterprise_change_ops.Contracts.Json.{Json, str, end, field, obj}
use enterprise_change_ops.Contracts.Models.{ChangeEvent, ChangeRecord, RemediationPlan}

pub record Codec : Type 0 where
  -- `json.dumps` with the keyword arguments of `canonical_json`
  pub json_dumps : Json → String
  -- `hashlib.sha256(text.encode("utf-8")).hexdigest()`
  pub hexdigest : String → String
  -- `model_dump(mode="json")`
  pub dump_event : ChangeEvent → Json
  pub dump_change : ChangeRecord → Json
  pub dump_plan : RemediationPlan → Json

-- `text[len(prefix):]`, if the text begins with the prefix.
abbrev strip_prefix : String → String → Option String
strip_prefix String.[] s = some s
strip_prefix (String.◌∷◌ c p) String.[] = none
strip_prefix (String.◌∷◌ c p) (String.◌∷◌ d s) = elim (nat_eqb (code c) (code d)) [
  | true ↦ strip_prefix p s
  | false ↦ none
]

-- `text.removeprefix(prefix)`
abbrev pub remove_prefix : String → String → String
remove_prefix p s = elim (strip_prefix p s) [ some rest ↦ rest | none ↦ s ]

-- `text[:n]`
abbrev pub first_chars : ℕ → String → String
first_chars zero s = ""
first_chars (suc n) String.[] = ""
first_chars (suc n) (String.◌∷◌ c s) = String.◌∷◌ c (first_chars n s)

module _ (h : Codec) where
  unfoldable pub canonical_json : Json → String
  canonical_json = h.json_dumps

  unfoldable pub sha256_digest : Json → String
  unfolding canonical_json
  sha256_digest document = concat "sha256:" (h.hexdigest (canonical_json document))

  unfoldable pub calculate_plan_hash : RemediationPlan → String
  calculate_plan_hash plan = sha256_digest (h.dump_plan plan)

  unfoldable pub derive_change_id : ChangeEvent → String
  derive_change_id event =
      let digest = sha256_digest (
        obj (
          field "event_id" (str event.event_id) (
            field "source" (str event.source.source_type)
              (field "tenant_id" (str event.tenant_id) end)))) in
      concat "chg_" (first_chars 24 (remove_prefix "sha256:" digest))

  unfoldable pub derive_workflow_id : ChangeEvent → String
  derive_workflow_id event =
      let digest = sha256_digest (
        obj (
          field "correlation_id" (str event.correlation_id) (
            field "event_id" (str event.event_id)
              (field "tenant_id" (str event.tenant_id) end)))) in
      concat "wf_" (first_chars 24 (remove_prefix "sha256:" digest))
