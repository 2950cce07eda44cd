-- ===== src/Json/RoundTrip.antt =====
-- `stringify` followed by `parse`, both of cpp/database/json_parser.hpp: texts in RoundTrip/Strings,
-- numbers in RoundTrip/Numbers, the parser's rounds in RoundTrip/Steps, the values
-- that come back in RoundTrip/Printable, one kind of value at a time in RoundTrip/Cases and whole ones
-- in RoundTrip/Values, and the texts that the two do not agree on in RoundTrip/Control.
pub mod Strings
pub mod Numbers
pub mod Steps
pub mod Printable
pub mod Cases
pub mod Values
pub mod Control
