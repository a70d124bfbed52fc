-- ===== src/Common/Json.antt =====
-- Python's `json` module, as the interface that the program uses: texts and flat objects. The fields
-- that the program reads are strings, integers and lists of strings; every other JSON value is
-- `other`, and a document that is no object is `not_object`. `loads` answers `none` where Python
-- raises JSONDecodeError.
use mathlib.Core.Path.{◌≡◌}
use mathlib.Core.Option.{Option, some}
use mathlib.Core.List.{List}
use jd_relay.Common.Int.{ℤ}
use jd_relay.Common.Texts.{Text}
use jd_relay.Common.Dict.{Dict}

pub data Value : Type 0 where
  str : Text → Value
  int : ℤ → Value
  strs : List Text → Value
  other : Value

pub data Document : Type 0 where
  object : Dict Value → Document
  not_object : Document

-- The documented behaviour: what was dumped is loaded back.
pub record Json : Type 0 where
  pub dumps : Dict Value → Text
  pub loads : Text → Option Document
  pub loads-dumps : (d : Dict Value) → loads (dumps d) ≡ some (object d)
