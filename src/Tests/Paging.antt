-- ===== src/Tests/Paging.antt =====
-- Concrete runs of the pages of a list method.
use boost_taar.Common.{◌≡◌, refl, none, some, List, [], ◌∷◌, codes, arith}
use boost_taar.JsonRpc.Json.{Value, number, pos, array, items, field, end}
use boost_taar.Mcp.Paging.{paginate, page_at, strtoull, read_digits}
use boost_taar.Mcp.Paging.Complete.{asks, collect_pages}
use boost_taar.Mcp.Paging.Complete

abbrev three : List Value
three = number (pos 1) ∷ number (pos 2) ∷ number (pos 3) ∷ []

second_page :
    paginate 2 three (codes "tools") (asks (codes "tools/list") (some (codes "2")))
    ≡ some (field (codes "tools") (array (items (number (pos 3) ∷ []))) end)
unfolding paginate page_at strtoull read_digits
second_page = refl

bad_cursor : paginate 2 three (codes "tools") (asks (codes "tools/list") (some (codes "4"))) ≡ none
unfolding paginate strtoull read_digits
bad_cursor = refl

collect_pages_complete_example :
    collect_pages 2 three (codes "tools") (codes "tools/list") 4 none ≡ some three
collect_pages_complete_example =
    Complete.collect_pages_complete 2 three (codes "tools") (codes "tools/list") refl (omega arith)
      4 (omega arith)
