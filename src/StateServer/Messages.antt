-- ===== src/StateServer/Messages.antt =====
-- The channel helpers and the message numbers of src/net/message_types.h.
use ardos.Prelude.{ℕ, ◌+◌, ◌*◌, ◌^◌}

abbrev pub invalid_channel : ℕ
invalid_channel = 0

abbrev pub invalid_do_id : ℕ
invalid_do_id = 0

abbrev pub bchan_stateservers : ℕ
bchan_stateservers = 12

abbrev pub stateserver_context_wake_children : ℕ
stateserver_context_wake_children = 1001

abbrev pub zone_bits : ℕ
zone_bits = 32

abbrev pub parent_prefix : ℕ
parent_prefix = 1 * 2 ^ zone_bits

-- The operands of `|` have no bit in common, the zone being a uint32_t: it is the sum.
unfoldable pub location_as_channel : ℕ → ℕ → ℕ
location_as_channel parent zone = parent * 2 ^ zone_bits + zone

unfoldable pub parent_to_children : ℕ → ℕ
parent_to_children parent = parent_prefix + parent

abbrev pub stateserver_create_object_with_required : ℕ
stateserver_create_object_with_required = 2000

abbrev pub stateserver_create_object_with_required_other : ℕ
stateserver_create_object_with_required_other = 2001

abbrev pub stateserver_delete_ai_objects : ℕ
stateserver_delete_ai_objects = 2009

abbrev pub stateserver_object_get_field : ℕ
stateserver_object_get_field = 2010

abbrev pub stateserver_object_get_field_resp : ℕ
stateserver_object_get_field_resp = 2011

abbrev pub stateserver_object_get_fields : ℕ
stateserver_object_get_fields = 2012

abbrev pub stateserver_object_get_fields_resp : ℕ
stateserver_object_get_fields_resp = 2013

abbrev pub stateserver_object_get_all : ℕ
stateserver_object_get_all = 2014

abbrev pub stateserver_object_get_all_resp : ℕ
stateserver_object_get_all_resp = 2015

abbrev pub stateserver_object_get_class : ℕ
stateserver_object_get_class = 2016

abbrev pub stateserver_object_get_class_resp : ℕ
stateserver_object_get_class_resp = 2017

abbrev pub stateserver_object_set_field : ℕ
stateserver_object_set_field = 2020

abbrev pub stateserver_object_set_fields : ℕ
stateserver_object_set_fields = 2021

abbrev pub stateserver_object_delete_ram : ℕ
stateserver_object_delete_ram = 2032

abbrev pub stateserver_object_set_location : ℕ
stateserver_object_set_location = 2040

abbrev pub stateserver_object_changing_location : ℕ
stateserver_object_changing_location = 2041

abbrev pub stateserver_object_enter_location_with_required : ℕ
stateserver_object_enter_location_with_required = 2042

abbrev pub stateserver_object_enter_location_with_required_other : ℕ
stateserver_object_enter_location_with_required_other = 2043

abbrev pub stateserver_object_get_location : ℕ
stateserver_object_get_location = 2044

abbrev pub stateserver_object_get_location_resp : ℕ
stateserver_object_get_location_resp = 2045

abbrev pub stateserver_object_location_ack : ℕ
stateserver_object_location_ack = 2046

abbrev pub stateserver_object_set_ai : ℕ
stateserver_object_set_ai = 2050

abbrev pub stateserver_object_changing_ai : ℕ
stateserver_object_changing_ai = 2051

abbrev pub stateserver_object_enter_ai_with_required : ℕ
stateserver_object_enter_ai_with_required = 2052

abbrev pub stateserver_object_enter_ai_with_required_other : ℕ
stateserver_object_enter_ai_with_required_other = 2053

abbrev pub stateserver_object_get_ai : ℕ
stateserver_object_get_ai = 2054

abbrev pub stateserver_object_get_ai_resp : ℕ
stateserver_object_get_ai_resp = 2055

abbrev pub stateserver_object_set_owner : ℕ
stateserver_object_set_owner = 2060

abbrev pub stateserver_object_changing_owner : ℕ
stateserver_object_changing_owner = 2061

abbrev pub stateserver_object_enter_owner_with_required : ℕ
stateserver_object_enter_owner_with_required = 2062

abbrev pub stateserver_object_enter_owner_with_required_other : ℕ
stateserver_object_enter_owner_with_required_other = 2063

abbrev pub stateserver_object_enter_interest_with_required : ℕ
stateserver_object_enter_interest_with_required = 2066

abbrev pub stateserver_object_enter_interest_with_required_other : ℕ
stateserver_object_enter_interest_with_required_other = 2067

abbrev pub stateserver_object_get_zone_objects : ℕ
stateserver_object_get_zone_objects = 2100

abbrev pub stateserver_object_get_zones_objects : ℕ
stateserver_object_get_zones_objects = 2102

abbrev pub stateserver_object_get_zones_count_resp : ℕ
stateserver_object_get_zones_count_resp = 2113

abbrev pub stateserver_object_delete_children : ℕ
stateserver_object_delete_children = 2124

abbrev pub stateserver_get_active_zones : ℕ
stateserver_get_active_zones = 2125

abbrev pub stateserver_get_active_zones_resp : ℕ
stateserver_get_active_zones_resp = 2126
