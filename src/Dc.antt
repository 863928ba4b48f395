-- ===== src/Dc.antt =====
-- The DC file library (libs/dclass), as the program calls it. Its objects are pointers; a pointer
-- is a number here, and what a call may return as a null pointer is an Option.
use ardos.Prelude.{ℕ, ◌<◌, Bool, List, All, Option}

pub record Dc : Type 0 where
  -- DCPackerInterface: has_fixed_byte_size, get_fixed_byte_size, get_num_length_bytes
  pub has_fixed_byte_size : ℕ → Bool
  pub fixed_byte_size : ℕ → ℕ
  pub num_length_bytes : ℕ → ℕ
  -- get_nested_field at 0 to get_num_nested_fields - 1. The tree of a field is finite: `depth`,
  -- which is no call of the library, is its height.
  pub nested_fields : ℕ → List ℕ
  pub depth : ℕ → ℕ
  pub nested_lower : (field : ℕ) → All (λ g. depth g < depth field) (nested_fields field)
  -- DCClass: get_field_by_name, with the name as the list of its characters
  pub field_by_name : ℕ → List ℕ → Option ℕ
  -- DCField: as_atomic_field
  pub as_atomic_field : ℕ → Option ℕ
  -- DCAtomicField: get_num_elements, has_element_default
  pub num_elements : ℕ → ℕ
  pub has_element_default : ℕ → ℕ → Bool
  -- The string that a DCPacker unpacks for the element of an atomic field from its default, where
  -- there is such an element and the unpacking succeeds.
  pub element_default_string : ℕ → ℕ → Option (List ℕ)
  -- DCFile: get_class
  pub get_class : ℕ → Option ℕ
  -- DCClass: get_number, get_inherited_field at 0 to get_num_inherited_fields - 1, get_field_by_index
  pub class_number : ℕ → ℕ
  pub inherited_fields : ℕ → List ℕ
  pub field_by_index : ℕ → ℕ → Option ℕ
  -- DCField: get_number, as_molecular_field and the keywords
  pub field_number : ℕ → ℕ
  pub as_molecular_field : ℕ → Option ℕ
  pub is_required : ℕ → Bool
  pub is_ram : ℕ → Bool
  pub is_broadcast : ℕ → Bool
  pub is_clrecv : ℕ → Bool
  pub is_ownrecv : ℕ → Bool
  pub is_airecv : ℕ → Bool
  -- DCMolecularField: get_atomic at 0 to get_num_atomics - 1
  pub atomics : ℕ → List ℕ
