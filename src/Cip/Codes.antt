-- ===== src/Cip/Codes.antt =====
-- src/cip/Cip.h: the codes of services, general statuses, identity attributes and segments.
use esp32_control_logix.Base.{ℕ}

pub data Service : Type 0 where
  get_attribute_all : Service
  set_attribute_all : Service
  get_attribute_list : Service
  set_attribute_list : Service
  reset : Service
  start : Service
  stop : Service
  create : Service
  delete : Service
  multiple_service_packet : Service
  apply_attributes : Service
  get_attribute_single : Service
  set_attribute_single : Service
  find_next_object_instance : Service
  restore : Service
  save : Service
  no_operation : Service
  get_member : Service
  set_member : Service
  insert_member : Service
  remove_member : Service

abbrev pub service_code : Service → ℕ
service_code get_attribute_all = 0x01
service_code set_attribute_all = 0x02
service_code get_attribute_list = 0x03
service_code set_attribute_list = 0x04
service_code reset = 0x05
service_code start = 0x06
service_code stop = 0x07
service_code create = 0x08
service_code delete = 0x09
service_code multiple_service_packet = 0x0a
service_code apply_attributes = 0x0d
service_code get_attribute_single = 0x0e
service_code set_attribute_single = 0x10
service_code find_next_object_instance = 0x11
service_code restore = 0x15
service_code save = 0x16
service_code no_operation = 0x17
service_code get_member = 0x18
service_code set_member = 0x19
service_code insert_member = 0x1a
service_code remove_member = 0x1b

pub data GeneralStatus : Type 0 where
  success : GeneralStatus
  connection_failure : GeneralStatus
  resource_unavailable : GeneralStatus
  invalid_parameter_value : GeneralStatus
  path_segment_error : GeneralStatus
  path_destination_unknown : GeneralStatus
  partial_transfer : GeneralStatus
  connection_lost : GeneralStatus
  service_not_supported : GeneralStatus
  invalid_attribute_value : GeneralStatus
  attribute_list_error : GeneralStatus
  already_in_requested_mode : GeneralStatus
  object_state_conflict : GeneralStatus
  object_already_exists : GeneralStatus
  attribute_not_settable : GeneralStatus
  privilege_violation : GeneralStatus
  device_state_conflict : GeneralStatus
  reply_data_too_large : GeneralStatus
  not_enough_data : GeneralStatus
  attribute_not_supported : GeneralStatus
  too_much_data : GeneralStatus
  object_does_not_exist : GeneralStatus
  embedded_service_error : GeneralStatus
  invalid_parameter : GeneralStatus
  invalid_reply_received : GeneralStatus
  buffer_overflow : GeneralStatus
  path_size_invalid : GeneralStatus

abbrev pub general_status_code : GeneralStatus → ℕ
general_status_code success = 0x00
general_status_code connection_failure = 0x01
general_status_code resource_unavailable = 0x02
general_status_code invalid_parameter_value = 0x03
general_status_code path_segment_error = 0x04
general_status_code path_destination_unknown = 0x05
general_status_code partial_transfer = 0x06
general_status_code connection_lost = 0x07
general_status_code service_not_supported = 0x08
general_status_code invalid_attribute_value = 0x09
general_status_code attribute_list_error = 0x0a
general_status_code already_in_requested_mode = 0x0b
general_status_code object_state_conflict = 0x0c
general_status_code object_already_exists = 0x0d
general_status_code attribute_not_settable = 0x0e
general_status_code privilege_violation = 0x0f
general_status_code device_state_conflict = 0x10
general_status_code reply_data_too_large = 0x11
general_status_code not_enough_data = 0x13
general_status_code attribute_not_supported = 0x14
general_status_code too_much_data = 0x15
general_status_code object_does_not_exist = 0x16
general_status_code embedded_service_error = 0x1e
general_status_code invalid_parameter = 0x20
general_status_code invalid_reply_received = 0x22
general_status_code buffer_overflow = 0x23
general_status_code path_size_invalid = 0x26

-- The attribute ids of the Identity object.
abbrev pub identity_vendor_id : ℕ
identity_vendor_id = 1

abbrev pub identity_device_type : ℕ
identity_device_type = 2

abbrev pub identity_product_code : ℕ
identity_product_code = 3

abbrev pub identity_revision : ℕ
identity_revision = 4

abbrev pub identity_status : ℕ
identity_status = 5

abbrev pub identity_serial_number : ℕ
identity_serial_number = 6

abbrev pub identity_product_name : ℕ
identity_product_name = 7

abbrev pub identity_state : ℕ
identity_state = 8

-- The types of path segments that no function of the library writes.
abbrev pub segment_class_id16 : ℕ
segment_class_id16 = 0x21

abbrev pub segment_instance_id16 : ℕ
segment_instance_id16 = 0x25

abbrev pub segment_element_id8 : ℕ
segment_element_id8 = 0x28

abbrev pub segment_element_id16 : ℕ
segment_element_id16 = 0x29

abbrev pub segment_attribute_id16 : ℕ
segment_attribute_id16 = 0x31
