-- ===== src/Cip.antt =====
-- src/cip/Cip.h: service, item and data type codes, and the path segments.
pub mod Symbolic
pub mod Codes
use Prim.Native.String.{String}
use esp32_control_logix.Base.{
  ℕ, ◌+◌, ◌%◌, Option, none, some, List, [], ◌∷◌, length, take, store, ltb, ◌==◌, if◌then◌else◌,
}

-- `enum class CpfItemType : uint16_t`.
pub data CpfItemType : Type 0 where
  null_address list_identity connected_address : CpfItemType
  connected_data unconnected_data list_services : CpfItemType

abbrev pub item_code : CpfItemType → ℕ
item_code null_address = 0x0000
item_code list_identity = 0x000c
item_code connected_address = 0x00a1
item_code connected_data = 0x00b1
item_code unconnected_data = 0x00b2
item_code list_services = 0x0100

-- The path segment codes.
abbrev pub segment_class_id8 : ℕ
segment_class_id8 = 0x20

abbrev pub segment_instance_id8 : ℕ
segment_instance_id8 = 0x24

abbrev pub segment_attribute_id8 : ℕ
segment_attribute_id8 = 0x30

abbrev pub segment_symbolic : ℕ
segment_symbolic = 0xa0

-- Each `append` function returns the buffer and the bytes written.
pub append_class : List ℕ → ℕ → ℕ → List ℕ × ℕ
append_class buf out class_id =
    (store (store buf out (segment_class_id8 ∷ [])) (out + 1) (class_id ∷ []), 2)

pub append_instance : List ℕ → ℕ → ℕ → List ℕ × ℕ
append_instance buf out instance_id =
    (store (store buf out (segment_instance_id8 ∷ [])) (out + 1) (instance_id ∷ []), 2)

pub append_attribute : List ℕ → ℕ → ℕ → List ℕ × ℕ
append_attribute buf out attribute_id =
    (store (store buf out (segment_attribute_id8 ∷ [])) (out + 1) (attribute_id ∷ []), 2)

abbrev pub max_symbolic_name : ℕ
max_symbolic_name = 120

-- `size_t len = strlen(name); if (len > kMaxSymbolicName) len = kMaxSymbolicName;` A C string is
-- the list of its characters before the NUL.
abbrev pub symbolic_length : List ℕ → ℕ
symbolic_length name =
    if ltb max_symbolic_name (length name) then max_symbolic_name else length name

pub append_symbolic : List ℕ → ℕ → List ℕ → List ℕ × ℕ
append_symbolic buf out name =
    let len = symbolic_length name in
    let b1 = store buf out (segment_symbolic ∷ []) in
    let b2 = store b1 (out + 1) ((len % 256) ∷ []) in
    let b3 = store b2 (out + 2) (take len name) in
    let total = 2 + len in
    if len % 2 == 1 then (store b3 (out + total) (0 ∷ []), total + 1) else (b3, total)

-- `enum class DataType : uint8_t`.
pub data DataType : Type 0 where
  bool sint int dint lint usint uint udint ulint real lreal string : DataType

abbrev pub data_type_code : DataType → ℕ
data_type_code bool = 0xc1
data_type_code sint = 0xc2
data_type_code int = 0xc3
data_type_code dint = 0xc4
data_type_code lint = 0xc5
data_type_code usint = 0xc6
data_type_code uint = 0xc7
data_type_code udint = 0xc8
data_type_code ulint = 0xc9
data_type_code real = 0xca
data_type_code lreal = 0xcb
data_type_code string = 0xd0

-- `static_cast<DataType>(code)` before a `switch`: the enumerator with that code, if there is one.
with_code : ℕ → List DataType → Option DataType
with_code code [] = none
with_code code (t ∷ ts) = if code == data_type_code t then some t else with_code code ts

abbrev pub element_size : DataType → ℕ
element_size bool = 1
element_size sint = 1
element_size int = 2
element_size dint = 4
element_size lint = 8
element_size usint = 1
element_size uint = 2
element_size udint = 4
element_size ulint = 8
element_size real = 4
element_size lreal = 8
element_size string = 0

abbrev pub all_data_types : List DataType
all_data_types =
    bool ∷ sint ∷ int ∷ dint ∷ lint ∷ usint ∷ uint ∷ udint ∷ ulint ∷ real ∷ lreal ∷ string ∷ []

-- `dataTypeElementSize(static_cast<DataType>(code))`; 0 for a code that is no enumerator.
unfoldable pub data_type_element_size : ℕ → ℕ
unfolding with_code
data_type_element_size code = elim (with_code code all_data_types) [
  | none ↦ 0
  | some t ↦ element_size t
]

pub data_type_name : DataType → String
data_type_name bool = "BOOL"
data_type_name sint = "SINT"
data_type_name int = "INT"
data_type_name dint = "DINT"
data_type_name lint = "LINT"
data_type_name usint = "USINT"
data_type_name uint = "UINT"
data_type_name udint = "UDINT"
data_type_name ulint = "ULINT"
data_type_name real = "REAL"
data_type_name lreal = "LREAL"
data_type_name string = "STRING"

-- `enum class TagService : uint8_t`.
pub data TagService : Type 0 where
  read_tag write_tag read_fragmented write_fragmented : TagService

abbrev pub tag_service_code : TagService → ℕ
tag_service_code read_tag = 0x4c
tag_service_code write_tag = 0x4d
tag_service_code read_fragmented = 0x52
tag_service_code write_fragmented = 0x53
