-- ===== src/Port/Tests.antt =====
-- Runs of the bounded string functions at concrete texts.
use sysmonitor.Base.{arith}
use sysmonitor.Base.Text.{Bytes, codes, IsText, text, text-IsText}
use sysmonitor.Port.{strstr_s}
use sysmonitor.Port.Search.{IsFirst, strstr_s-IsFirst}

abbrev name : Bytes
name = codes "DB1"

name-IsText : IsText name
unfolding text
name-IsText = text-IsText name

strstr_s-IsFirst_example : IsFirst name 3 (codes "B") (strstr_s name 3 (codes "B"))
strstr_s-IsFirst_example = strstr_s-IsFirst name 3 (codes "B") name-IsText (omega arith, tt)
