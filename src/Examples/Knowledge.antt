-- ===== src/Examples/Knowledge.antt =====
-- The theorems on articles, the wiki's store, the events and the promotion detector, at concrete
-- inputs.
use prometheus_knowledge_rs.Wiki.Hashes.{IsHashed, upsert-IsHashed}
use prometheus_knowledge_rs.Prelude.{
  ℕ, ◌≡◌, refl, Bool, true, false, ◌&&◌, ◌||◌, Option, none, some, List, [], ◌∷◌, map, String,
  str_eq, leb, ◌==◌, if◌then◌else◌, bind, any, codes, is_ascii_digit, chars_start_with, find,
}
use prometheus_knowledge_rs.Article.{
  Unicode, split, to_ascii_lower, is_safe_path, from_slug, bare_slug, ends_in_dot_or_space,
  device_names, is_windows_device_name, is_safe_segment, join_dash,
}
use prometheus_knowledge_rs.Article.Slug.{from_slug-is_safe_path}
use prometheus_knowledge_rs.Article.Inside.{walk, reverse_onto, is_safe_path-walk}
use prometheus_knowledge_rs.Wiki.{
  WikiEntry, Store, written, broken, done, upsert, find_by_content_hash, entry_content_hash,
}
use prometheus_knowledge_rs.Wiki.Index.{IsIndexed}
use prometheus_knowledge_rs.Wiki.Pages.{revised, upsert-find}

abbrev is_ascii_alphanumeric : ℕ → Bool
is_ascii_alphanumeric c =
    is_ascii_digit c || (leb b'A' c && leb c b'Z') || (leb b'a' c && leb c b'z')

abbrev ascii : Unicode
ascii = record {
  to_lowercase = map to_ascii_lower;
  is_alphanumeric = is_ascii_alphanumeric;
  is_alphanumeric_ascii = λ c h. refl;
}

-- A title that spells a device.
con_escaped : from_slug ascii (codes "Con!") ≡ codes "con_"
unfolding from_slug is_windows_device_name device_names split bare_slug join_dash
con_escaped = refl

from_slug-is_safe_path_example :
    (is_safe_path (from_slug ascii (codes "Con!")) ≡ true)
    × (split b'/' (from_slug ascii (codes "Con!")) ≡ from_slug ascii (codes "Con!") ∷ [])
from_slug-is_safe_path_example = from_slug-is_safe_path ascii (codes "Con!") (rw con_escaped refl)

tables_safe : is_safe_path (codes "tables/orders") ≡ true
unfolding is_safe_path split is_safe_segment ends_in_dot_or_space is_windows_device_name
    device_names
tables_safe = refl

is_safe_path-walk_example :
    (walk (codes "wiki" ∷ []) (split b'/' (codes "tables/orders"))
      ≡ reverse_onto (codes "wiki" ∷ []) (split b'/' (codes "tables/orders")))
    × (chars_start_with (codes "tables/orders") (b'/' ∷ []) ≡ false)
    × (any (λ c. c == b':') (codes "tables/orders") ≡ false)
is_safe_path-walk_example =
    is_safe_path-walk (codes "tables/orders") (codes "wiki" ∷ []) tables_safe

abbrev orders : WikiEntry String
orders = record {
  id = "orders";
  title = "Orders";
  content = "One row for each order.";
  tags = "table" ∷ [];
  links = [];
  sources = [];
  created_at = 1;
  updated_at = 1;
  revision = 4;
  entry_type = none;
  description = none;
  generated_by = none;
  extra = ("content_hash", "9f86d081") ∷ [];
}

abbrev empty_store : Store String
empty_store = record {
  entries = [];
  index = record { inverted = []; doc_lengths = []; doc_count = 0 };
  content_hash_index = [];
  pages = [];
}

abbrev one_entry : Store String
one_entry = record {
  entries = ("orders", orders) ∷ [];
  index = record {
    inverted = record { term = "order"; id = "orders"; occurrences = 1; total = 1 } ∷ [];
    doc_lengths = ("orders", 1) ∷ [];
    doc_count = 1;
  };
  content_hash_index = ("9f86d081", "orders") ∷ [];
  pages = ("orders", "One row for each order.") ∷ [];
}

abbrev content_of : WikiEntry String → Option String
content_of entry = some entry.content

abbrev title_terms : WikiEntry String → List String
title_terms entry = entry.title ∷ entry.tags

orders_safe : is_safe_path (codes "orders") ≡ true
unfolding is_safe_path split is_safe_segment ends_in_dot_or_space is_windows_device_name
    device_names
orders_safe = refl

orders_rendered :
    content_of (revised some content_of title_terms 7 (some orders) orders)
    ≡ some "One row for each order."
unfolding find
orders_rendered = refl

orders_found : find "orders" one_entry.entries ≡ some orders
unfolding find
orders_found = refl

upsert-find_example :
    let next = revised some content_of title_terms 7 (some orders) orders in
    let (r, after) = upsert some content_of title_terms 7 written orders one_entry in
    (r ≡ done next)
    × (find "orders" after.entries
        ≡ (if str_eq next.id "orders" then some next else find "orders" one_entry.entries))
    × (find "orders" after.pages ≡ (
        if str_eq next.id "orders"
        then some "One row for each order."
        else find "orders" one_entry.pages))
    × (bind (entry_content_hash some next) (λ h. find_by_content_hash some h after)
        ≡ bind (entry_content_hash some next) (λ h. some next.id))
upsert-find_example =
    upsert-find some content_of title_terms 7 orders one_entry (some orders)
      "One row for each order." "orders" orders_safe orders_found orders_rendered

empty_IsHashed : IsHashed some empty_store
unfolding find
empty_IsHashed = record { each_hash = λ h id e. cc }

upsert-IsHashed_example :
    IsHashed some (upsert some content_of title_terms 7 (broken "torn") orders empty_store).1
upsert-IsHashed_example =
    upsert-IsHashed some content_of title_terms 7 (broken "torn") orders empty_store empty_IsHashed

one_entry_IsIndexed : IsIndexed one_entry.index
unfolding find
one_entry_IsIndexed = record { once = (refl, tt); counted = refl; known = (refl, tt) }
