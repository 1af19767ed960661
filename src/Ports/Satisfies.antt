-- ===== src/Ports/Satisfies.antt =====
-- The verdict of `compare_semantic_ports` of protocol/ports.py, against what a consumer needs.
use text.Mathlib.TextPositions.{eq_refl}
use defined_quant_components.Common.{
  ◌≡◌, ◌↔◌, inl, inr, refl, Bool, true, false, List, [], ◌∷◌, ok, Bool-cases, All,
}
use defined_quant_components.Ports.Vocabulary.{
  PortDirection, PortProvenanceRequirement, PortDimension, PortValue, wire, dimension_of,
  provenance_value,
}
use defined_quant_components.Ports.{
  SemanticPort, PortCompatibility, provenance_is_compatible, port_dimensions, port_value,
  dimension_compatible, differences, is_empty, same_bool, validate_result, compare_ports,
}
use defined_quant_components.Ports.Compare.{
  mismatches, differences_over-mismatches, same_differences_refl, value-eq,
}

-- What a producer may offer a consumer that asks for the given provenance.
pub data Provides : PortProvenanceRequirement → PortProvenanceRequirement → Type 0 where
  any : (a : PortProvenanceRequirement) → Provides a PortProvenanceRequirement.not_required
  exact : (a : PortProvenanceRequirement) → Provides a a
  from_source :
      Provides PortProvenanceRequirement.source_bound
        PortProvenanceRequirement.source_or_component_bound
  from_component :
      Provides PortProvenanceRequirement.component_bound
        PortProvenanceRequirement.source_or_component_bound

-- The producer's values meet the consumer's contract: they agree in the first seven dimensions,
-- and the producer's provenance is enough.
pub record Satisfies (p c : SemanticPort) : Type 0 where
  pub concept : p.concept ≡ c.concept
  pub unit : p.unit ≡ c.unit
  pub shape : p.shape ≡ c.shape
  pub cardinality : p.cardinality ≡ c.cardinality
  pub convention : p.convention ≡ c.convention
  pub ordering : p.ordering ≡ c.ordering
  pub frequency : p.frequency ≡ c.frequency
  pub provenance : Provides p.provenance_requirement c.provenance_requirement

Provides-compatible :
    (a b : PortProvenanceRequirement) → provenance_is_compatible a b ≡ true → Provides a b
unfolding provenance_is_compatible provenance_value
Provides-compatible a PortProvenanceRequirement.not_required h = any a
Provides-compatible PortProvenanceRequirement.source_bound
      PortProvenanceRequirement.source_or_component_bound h =
    from_source
Provides-compatible PortProvenanceRequirement.component_bound
      PortProvenanceRequirement.source_or_component_bound h =
    from_component
Provides-compatible PortProvenanceRequirement.source_or_component_bound
      PortProvenanceRequirement.source_or_component_bound h =
    exact _
Provides-compatible PortProvenanceRequirement.source_bound PortProvenanceRequirement.source_bound
      h =
    exact _
Provides-compatible PortProvenanceRequirement.component_bound
      PortProvenanceRequirement.component_bound h =
    exact _
Provides-compatible _ _ h = cc

provenance_is_compatible_refl :
    (a : PortProvenanceRequirement) → provenance_is_compatible a a ≡ true
unfolding provenance_is_compatible provenance_value
provenance_is_compatible_refl PortProvenanceRequirement.not_required = refl
provenance_is_compatible_refl _ = refl

compatible-Provides :
    (a b : PortProvenanceRequirement) → Provides a b → provenance_is_compatible a b ≡ true
unfolding provenance_is_compatible
compatible-Provides a b (any _) = refl
compatible-Provides a b (exact _) = provenance_is_compatible_refl a
compatible-Provides a b from_source = refl
compatible-Provides a b from_component = refl

abbrev Compatible : SemanticPort → SemanticPort → PortDimension → Type 0
Compatible p c d = dimension_compatible d p c ≡ true

mismatches-empty :
    (p c : SemanticPort) (ds : List PortDimension)
    → (is_empty (mismatches p c ds) ≡ true) ↔ All (Compatible p c) ds
unfolding mismatches
mismatches-empty p c [] = (λ h. tt, λ h. refl)
mismatches-empty p c (d ∷ ds) =
    let (to, from) = mismatches-empty p c ds in
    elim (Bool-cases (dimension_compatible d p c)) [
      | inl fits ↦
          (λ h. (fits, to (rw (mismatches, fits) at h)), λ h. rw (mismatches, fits) (from h.1))
      | inr apart ↦ (λ h. cc (rw (mismatches, apart) at h), λ h. cc (apart, h.0))
    ]

All-Satisfies : (p c : SemanticPort) → All (Compatible p c) port_dimensions ↔ Satisfies p c
unfolding dimension_compatible port_value dimension_of wire
All-Satisfies p c = (
  λ h. record {
    concept = cc (value-eq (PortValue.concept p.concept) (PortValue.concept c.concept) refl h.0);
    unit = cc (value-eq (PortValue.unit p.unit) (PortValue.unit c.unit) refl h.1.0);
    shape = cc (value-eq (PortValue.shape p.shape) (PortValue.shape c.shape) refl h.1.1.0);
    cardinality = cc (
        value-eq (PortValue.cardinality p.cardinality) (PortValue.cardinality c.cardinality) refl
          h.1.1.1.0);
    convention = cc (
        value-eq (PortValue.convention p.convention) (PortValue.convention c.convention) refl
          h.1.1.1.1.0);
    ordering = cc (
        value-eq (PortValue.ordering p.ordering) (PortValue.ordering c.ordering) refl
          h.1.1.1.1.1.0);
    frequency = cc (
        value-eq (PortValue.frequency p.frequency) (PortValue.frequency c.frequency) refl
          h.1.1.1.1.1.1.0);
    provenance =
        Provides-compatible p.provenance_requirement c.provenance_requirement h.1.1.1.1.1.1.1.0;
  },
  λ s. (
    rw s.concept (eq_refl _),
    (
      rw s.unit (eq_refl _),
      (
        rw s.shape (eq_refl _),
        (
          rw s.cardinality (eq_refl _),
          (
            rw s.convention (eq_refl _),
            (
              rw s.ordering (eq_refl _),
              (
                rw s.frequency (eq_refl _),
                (
                  compatible-Provides p.provenance_requirement c.provenance_requirement
                      s.provenance,
                  tt,
                ),
              ),
            ),
          ),
        ),
      ),
    ),
  ),
)

same_bool_refl : (b : Bool) → same_bool b b ≡ true
same_bool_refl true = refl
same_bool_refl false = refl

-- Comparing an output's contract with an input's always succeeds: the result lists the dimensions
-- in which the two are incompatible, in their order and with both values, no check of the result
-- models refuses it, and it says compatible exactly when the output satisfies the input.
pub compare_ports-Satisfies :
    (p c : SemanticPort)
    → p.direction ≡ PortDirection.output
    → c.direction ≡ PortDirection.input
    → (r : PortCompatibility) × (compare_ports p c ≡ ok r)
      × (r.differences ≡ mismatches p c port_dimensions)
      × ((r.compatible ≡ true) ↔ Satisfies p c)
unfolding compare_ports validate_result differences
compare_ports-Satisfies p c out inp =
    let (to, from) = mismatches-empty p c port_dimensions in
    let (all, back) = All-Satisfies p c in
    let found = mismatches p c port_dimensions in
    (
      record { producer = p; consumer = c; compatible = is_empty found; differences = found },
      simp (
        differences_over-mismatches p c port_dimensions,
        out,
        inp,
        same_differences_refl,
        same_bool_refl,
      ),
      refl,
      (λ h. all (to h), λ s. from (back s)),
    )
