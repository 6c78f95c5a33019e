-- ===== src/Config.antt =====
-- logme/source/Config: values with a unit, in TimeIntervalValue.cpp and ByteSizeValue.cpp.
pub mod SmartValue
pub mod Units
pub mod Strip
pub mod RoundTrip
pub mod Readers
pub mod Formats
pub mod Lenient
