-- ===== src/Ubsan/Data.antt =====
-- include/sanitizer/ubsan_interface.h, the data that the compiler passes to the handlers of
-- src/ubsan/ubsan_handlers.c. A pointer is an `Option`.
use misan.Prelude.{ℕ, List, Option}

pub record SourceLocation : Type 0 where
  pub filename : Option (List ℕ)
  pub line : ℕ
  pub column : ℕ

pub record TypeDescriptor : Type 0 where
  pub type_kind : ℕ
  pub type_info : ℕ
  pub type_name : List ℕ

pub record TypeMismatchData : Type 0 where
  pub location : Option SourceLocation
  pub type : Option TypeDescriptor
  pub log_alignment : ℕ
  pub type_check_kind : ℕ

pub record OverflowData : Type 0 where
  pub location : Option SourceLocation
  pub type : Option TypeDescriptor

pub record ShiftOutOfBoundsData : Type 0 where
  pub location : Option SourceLocation
  pub left_type : Option TypeDescriptor
  pub right_type : Option TypeDescriptor

pub record OutOfBoundsData : Type 0 where
  pub location : Option SourceLocation
  pub array_type : Option TypeDescriptor
  pub index_type : Option TypeDescriptor

pub record VlaBoundData : Type 0 where
  pub location : Option SourceLocation
  pub type : Option TypeDescriptor

pub record InvalidValueData : Type 0 where
  pub location : Option SourceLocation
  pub type : Option TypeDescriptor
  pub kind : ℕ

pub record TypeMismatchDataV1 : Type 0 where
  pub location : Option SourceLocation
  pub type : Option TypeDescriptor
  pub alignment : ℕ
  pub type_check_kind : ℕ

pub record ImplicitConversionData : Type 0 where
  pub location : Option SourceLocation
  pub from_type : Option TypeDescriptor
  pub to_type : Option TypeDescriptor
  pub kind : ℕ

pub record NonnullArgData : Type 0 where
  pub location : Option SourceLocation
  pub attr_location : Option SourceLocation
  pub arg_index : ℕ

pub record PointerOverflowData : Type 0 where
  pub location : Option SourceLocation

pub record FunctionTypeMismatchData : Type 0 where
  pub location : SourceLocation
  pub type : Option TypeDescriptor

pub record FloatCastOverflowData : Type 0 where
  pub location : SourceLocation
  pub from_type : Option TypeDescriptor
  pub to_type : Option TypeDescriptor
