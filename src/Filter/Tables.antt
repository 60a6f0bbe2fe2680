-- ===== src/Filter/Tables.antt =====
-- filter_load of filter.c: the calls of its body, in their order.
pub mod Common
pub mod Gcc
pub mod Parsers
pub mod Hpux
pub mod Mipspro
pub mod MipsproNew
pub mod Others
pub mod Mwos
use maketool.Common.{Bool, List, [], ◌++◌, Option, if◌then◌else◌, Bytes}
use maketool.Filter.Types.{Filters}
use maketool.Filter.Load.{Directive, run, no_filters}
use Common.{common_filters}
use Gcc.{gcc_filters}
use Parsers.{parser_generator_filters}
use Hpux.{hpux_filters}
use Mipspro.{mipspro_filters}
use MipsproNew.{mipspro_new_filters}
use Others.{other_filters}
use Mwos.{mwos_filters}

-- The macros ENABLE_FILTER_HPUX, ENABLE_FILTER_MIPSPRO and ENABLE_FILTER_MWOS.
pub record Enabled : Type 0 where
  pub hpux : Bool
  pub mipspro : Bool
  pub mwos : Bool

-- The calls that are compiled in.
unfoldable pub filter_calls : Enabled → List Directive
filter_calls on =
    common_filters
    ++ (gcc_filters
        ++ (parser_generator_filters
            ++ ((if on.hpux then hpux_filters else [])
                ++ ((if on.mipspro then mipspro_filters ++ mipspro_new_filters else [])
                    ++ (other_filters ++ (if on.mwos then mwos_filters else []))))))

-- filter_load
unfoldable pub filter_load : (Bytes → Bool) → Enabled → Option Filters
filter_load regcomp on = run regcomp (filter_calls on) no_filters
