-- ===== src/Net/Fields.antt =====
-- UnpackField and SkipField of src/net/datagram_iterator.cpp, over the fields of a DC file.
pub mod Skip
pub mod Unpack
