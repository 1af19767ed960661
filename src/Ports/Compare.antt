-- ===== src/Ports/Compare.antt =====
-- `_differences` and `compare_semantic_ports` of protocol/ports.py against what a consumer needs.
use text.Mathlib.Text.{◌==◌ as str_eq}
use text.Mathlib.TextEquality.{eq_iff}
use text.Mathlib.TextPositions.{eq_refl}
use defined_quant_components.Common.{
  ◌≡◌, inl, inr, refl, true, false, List, [], ◌∷◌, ok, if◌then◌else◌, some, Bool-cases,
}
use defined_quant_components.Ports.Vocabulary.{
  PortProvenanceRequirement, PortDimension, PortValue, wire, members, contains, values_by_dimension,
  find_value, dimension_of, contains-wire, find_value-wire, provenance_value,
}
use defined_quant_components.Ports.{
  SemanticPort, PortDifference, coerce_value, validate_dimension_values, new_difference,
  provenance_is_compatible, port_value, dimension_compatible, differences_over, same_differences,
}

dimension_of-port_value : (d : PortDimension) (p : SemanticPort) → dimension_of (port_value d p) ≡ d
unfolding dimension_of port_value
dimension_of-port_value PortDimension.concept p = refl
dimension_of-port_value _ p = refl

coerce_value-own : (d : PortDimension) (v : PortValue) → dimension_of v ≡ d → coerce_value d v ≡ v
unfolding coerce_value
coerce_value-own d v h = rw (← h, coerce_value, find_value-wire v)

wire_injective : (u v : PortValue) → dimension_of u ≡ dimension_of v → wire u ≡ wire v → u ≡ v
wire_injective u v same h =
    let found : find_value (members (dimension_of u)) (wire u) ≡ some v =
      rw (same, h) (find_value-wire v) in
    cc (found, find_value-wire u)

provenance-differs :
    (a b : PortProvenanceRequirement)
    → provenance_is_compatible a b ≡ false
    → str_eq (provenance_value a) (provenance_value b) ≡ false
unfolding provenance_is_compatible provenance_value
provenance-differs PortProvenanceRequirement.not_required PortProvenanceRequirement.not_required h =
    cc
provenance-differs PortProvenanceRequirement.source_bound PortProvenanceRequirement.not_required h =
    cc
provenance-differs PortProvenanceRequirement.component_bound PortProvenanceRequirement.not_required
      h =
    cc
provenance-differs _ PortProvenanceRequirement.not_required h = cc
provenance-differs PortProvenanceRequirement.source_or_component_bound
      PortProvenanceRequirement.source_or_component_bound h =
    cc
provenance-differs _ PortProvenanceRequirement.source_or_component_bound h = refl
provenance-differs _ _ h = h

-- An incompatible dimension has two different values.
values-differ :
    (d : PortDimension) (p c : SemanticPort)
    → dimension_compatible d p c ≡ false
    → str_eq (wire (port_value d p)) (wire (port_value d c)) ≡ false
unfolding dimension_compatible
values-differ PortDimension.provenance_requirement p c h =
    provenance-differs p.provenance_requirement c.provenance_requirement h
values-differ _ p c h = h

-- The difference of two contracts in one dimension, and those of all incompatible dimensions.
abbrev pub difference_at : PortDimension → SemanticPort → SemanticPort → PortDifference
difference_at d p c = record {
  dimension = d;
  producer_value = port_value d p;
  consumer_value = port_value d c;
}

unfoldable pub mismatches : SemanticPort → SemanticPort → List PortDimension → List PortDifference
mismatches p c [] = []
mismatches p c (d ∷ ds) =
    let rest = mismatches p c ds in
    if dimension_compatible d p c then rest else difference_at d p c ∷ rest

new_difference-port_value :
    (d : PortDimension) (p c : SemanticPort)
    → dimension_compatible d p c ≡ false
    → new_difference d (port_value d p) (port_value d c) ≡ ok (difference_at d p c)
unfolding new_difference validate_dimension_values
new_difference-port_value d p c h =
    let of_p : contains (values_by_dimension d) (wire (port_value d p)) ≡ true =
      rw (dimension_of-port_value d p) at (contains-wire (port_value d p)) in
    let of_c : contains (values_by_dimension d) (wire (port_value d c)) ≡ true =
      rw (dimension_of-port_value d c) at (contains-wire (port_value d c)) in
    simp (
      coerce_value-own d (port_value d p) (dimension_of-port_value d p),
      coerce_value-own d (port_value d c) (dimension_of-port_value d c),
      of_p,
      of_c,
      values-differ d p c h,
    )

pub differences_over-mismatches :
    (p c : SemanticPort) (ds : List PortDimension)
    → differences_over p c ds ≡ ok (mismatches p c ds)
unfolding differences_over mismatches
differences_over-mismatches p c [] = refl
differences_over-mismatches p c (d ∷ ds) = elim (Bool-cases (dimension_compatible d p c)) [
  | inl fits ↦ rw fits (differences_over-mismatches p c ds)
  | inr apart ↦
      rw (apart, new_difference-port_value d p c apart, differences_over-mismatches p c ds)
]

pub same_differences_refl : (xs : List PortDifference) → same_differences xs xs ≡ true
unfolding same_differences
same_differences_refl [] = refl
same_differences_refl (x ∷ xs) = simp (eq_refl, same_differences_refl xs)

pub value-eq :
    (u v : PortValue) → dimension_of u ≡ dimension_of v → str_eq (wire u) (wire v) ≡ true → u ≡ v
value-eq u v same h = wire_injective u v same ((eq_iff (wire u) (wire v)).0 h)
