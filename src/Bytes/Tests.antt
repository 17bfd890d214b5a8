-- ===== src/Bytes/Tests.antt =====
-- The theorems about integers in a page at concrete numbers.
use simpleflashfs.Prelude.{◌≡◌, arith}
use simpleflashfs.Bytes.{le, be, to_page, of_page}
use simpleflashfs.Bytes.Order.{of_page-to_page}

of_page-to_page_example : of_page le be 8 (to_page le be 8 0xFEDCBA98) ≡ 0xFEDCBA98
of_page-to_page_example = of_page-to_page le be 8 0xFEDCBA98 (omega arith)
