-- ===== src/Filter/Types.antt =====
-- filter.h and the types of filter.c.
use maketool.Common.{ℕ, Bool, true, false, Option, none, List, Bytes}

-- FilterCode without its FR_PENDING bit.
pub data Kind : Type 0 where
  undefined information warning error build_start change_dir push_dir pop_dir done : Kind

-- FilterCode: FR_PENDING is a separate bit of the number.
pub record FilterCode : Type 0 where
  pub kind : Kind
  pub pending : Bool

abbrev pub plain : Kind → FilterCode
plain k = record { kind = k; pending = false }

-- FR_PENDING|k
abbrev pub pending : Kind → FilterCode
pending k = record { kind = k; pending = true }

abbrev pub is_undefined : Kind → Bool
is_undefined undefined = true
is_undefined _ = false

abbrev pub is_done : Kind → Bool
is_done done = true
is_done _ = false

-- FilterResult; a null string is `none`.
pub record FilterResult : Type 0 where
  pub code : FilterCode
  pub file : Option Bytes
  pub line : ℕ
  pub column : ℕ
  pub summary : Option Bytes

-- filter_result_init of log.c
abbrev pub filter_result_init : FilterResult
filter_result_init = record {
  code = plain undefined;
  file = none;
  line = 0;
  column = 0;
  summary = none;
}

-- The arguments of filter_add. A null summary is `none`.
pub record FilterSpec : Type 0 where
  pub state : Bytes
  pub regexp : Bytes
  pub code : FilterCode
  pub file_str : Bytes
  pub line_str : Bytes
  pub col_str : Bytes
  pub summary_str : Option Bytes
  pub comment : Bytes

-- Filter, less its counters, which only debugging builds print. `set_name` names its FilterSet.
pub record Filter : Type 0 where
  pub instate : Bytes
  pub outstate : Bytes
  pub regexp : Bytes
  pub file_str : Bytes
  pub line_str : Bytes
  pub col_str : Bytes
  pub summary_str : Option Bytes
  pub code : FilterCode
  pub comment : Bytes
  pub set_name : Option Bytes

-- FilterSet
pub record FilterSet : Type 0 where
  pub name : Bytes
  pub filters : List Filter

-- The static variables of filter.c that filter_load fills: `filters`, `filters_by_lead`,
-- `filter_sets` and `curr_filter_set`.
pub record Filters : Type 0 where
  pub filters : List Filter
  pub by_lead : ℕ → List Filter
  pub filter_sets : List FilterSet
  pub curr_filter_set : Option Bytes
