-- ===== src/Filters.antt =====
-- The pages of a list: lib/api/filters/query-filter-service.js from getMetadataByOffsetLimit to
-- getOffsetByPagePerPage. A field of a query is a number as `+` reads it: `n / scale` for an integer
-- n, where scale is a parameter, or `none` for NaN. What is computed from two such numbers counts
-- in units of 1 / (scale · scale). Infinity and the rounding of doubles are left out, and so is
-- what the database driver makes of a fraction.
pub mod Laws
use ucom_backend.Prelude.{
  ℕ, ◌+◌, ◌-◌, ◌*◌, Bool, true, false, not, ◌&&◌, ◌||◌, ◌==◌, if◌then◌else◌, ltb, Option, none,
  some,
}
use ucom_backend.Prelude.Int.{ℤ, pos, negsuc}

-- PER_PAGE_LIMIT
abbrev pub per_page_limit : ℕ
per_page_limit = 50

pub record OffsetLimit : Type 0 where
  pub offset : ℕ
  pub limit : ℕ

-- `!x || x < 0` does not hold of these: the positive numbers
abbrev pub positive : Option ℤ → Option ℕ
positive none = none
positive (some (negsuc n)) = none
positive (some (pos n)) = if n == 0 then none else some n

-- `page` and `per_page` are returned as they came.
pub record Metadata : Type 0 where
  pub page : Option ℤ
  pub total_amount : ℕ
  pub per_page : Option ℤ
  pub has_more : Bool

module _ (scale : ℕ) where
  -- getOffsetByPagePerPage
  abbrev pub get_offset_by_page_per_page : ℕ → ℕ → ℕ
  get_offset_by_page_per_page page per_page = (page - scale) * per_page

  abbrev pub default_page : OffsetLimit
  default_page = record { offset = 0; limit = per_page_limit * (scale * scale) }

  abbrev pub capped : ℕ → ℕ
  capped per_page =
      if ltb (per_page_limit * scale) per_page then per_page_limit * scale else per_page

  abbrev pub page_of : ℕ → ℕ → OffsetLimit
  page_of page per_page = record {
    offset = if ltb scale page then get_offset_by_page_per_page page per_page else 0;
    limit = per_page * scale;
  }

  abbrev pub offset_limit_of : Option ℕ → Option ℕ → OffsetLimit
  offset_limit_of none per_page = default_page
  offset_limit_of (some page) none = default_page
  offset_limit_of (some page) (some per_page) = page_of page (capped per_page)

  unfoldable pub get_offset_limit : Option ℤ → Option ℤ → OffsetLimit
  get_offset_limit page per_page = offset_limit_of (positive page) (positive per_page)

  unfoldable pub get_metadata_by_offset_limit : ℕ → Option ℤ → Option ℤ → ℕ → ℕ → Metadata
  get_metadata_by_offset_limit total_amount page per_page offset limit = record {
    page = page;
    total_amount = total_amount;
    per_page = per_page;
    has_more = ltb (offset + limit) (total_amount * (scale * scale));
  }
