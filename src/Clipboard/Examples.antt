-- ===== src/Clipboard/Examples.antt =====
-- The theorems on URLs at concrete inputs.
use slush.Base.{none, List, [], ◌≡◌, ◌↔◌, true}
use slush.Clipboard.Urls.{IsUrl, has_url_scheme_iff}
use slush.Clipboard.{has_url_scheme}
use slush.Machine.{Event, Outcome, Machine}
use slush.Text.{Bytes, codes}

abbrev found_tool : List Event → Event → Outcome
found_tool log e = record {
  failure = none;
  exit_code = none;
  stdout = codes "/usr/bin/xdg-open";
  stderr = [];
  combined = [];
  consumed = 0;
}

abbrev desk : Machine
desk = record { answer = found_tool; log = [] }

abbrev target : Bytes
target = codes " https://example.com/\n"

has_url_scheme_iff_example :
    (has_url_scheme (codes "git+ssh://h") ≡ true) ↔ IsUrl (codes "git+ssh://h")
has_url_scheme_iff_example = has_url_scheme_iff (codes "git+ssh://h")
