-- ===== src/Export/Query.antt =====
-- `queryData` of src/components/export-csv/services/export-csv.service.ts: the transactions of an
-- export, read from the indexer in pages of descending height.
pub mod Whole
pub mod Blocks
use aura_explorer_api.Prelude.{
  ℕ, zero, suc, String, Bool, true, false, not, ltb, leb, ◌==◌, string_eq, Option, none, some, List,
  [], ◌∷◌, ◌++◌, length, keep_if, truthy, if◌then◌else◌,
}
use aura_explorer_api.Prelude.Pages.{last_key}
use aura_explorer_api.Exec.{failure, Result, ok, err}
use aura_explorer_api.Exec.Results.{and_then, map_ok}

abbrev pub query_limit_record : ℕ
query_limit_record = 100

abbrev pub export_limit_record : ℕ
export_limit_record = 1000

abbrev pub max_loop : ℕ
max_loop = 10

-- The bounds of a query.
pub record Bounds : Type 0 where
  pub height_lt : Option ℕ
  pub height_gt : Option ℕ
  pub start_time : Option String
  pub end_time : Option String

-- A row of EVM_SIGNATURE_MAPPING.
pub record Method : Type 0 where
  pub function_id : String
  pub human_readable_topic : Option String

-- The rows of an export: their height and, where methods are asked for, the id of their method. The
-- answers of the indexer: none where the request failed.
pub record Source (Row : Type 0) : Type 0 where
  pub height : Row → ℕ
  pub method_id : Option (Row → Option String)
  pub fetch : Bounds → Result (Option (List Row))
  pub fetch_methods : List String → Result (Option (List Method))

pub record Found (Row : Type 0) : Type 0 where
  pub rows : List Row
  pub methods : List Method

-- `[...new Set(ids)]` of the ids that are there.
abbrev pub distinct_ids : List (Option String) → List String
distinct_ids [] = []
distinct_ids (none ∷ rest) = distinct_ids rest
distinct_ids (some i ∷ rest) =
    if i == "" then distinct_ids rest else i ∷ keep_if (λ j. not (j == i)) (distinct_ids rest)

module _ {Row : Type 0} (src : Source Row) where
  abbrev ids_of : (Row → Option String) → List Row → List (Option String)
  ids_of f [] = []
  ids_of f (r ∷ rest) = f r ∷ ids_of f rest

  abbrev answered : Option (List Method) → Result (List Method)
  answered none = err (failure "undefined is not iterable")
  answered (some methods) = ok methods

  abbrev pub page_methods : List Row → Result (List Method)
  page_methods page = elim src.method_id [
    | none ↦ ok []
    | some f ↦ and_then (src.fetch_methods (distinct_ids (ids_of f page))) answered
  ]

  abbrev pub add_page : List Row → List Method → Found Row → Found Row
  add_page page methods found = record {
    rows = found.rows ++ page;
    methods = found.methods ++ methods;
  }

  -- What is done with the answer to one query: `next` goes on below a height.
  abbrev pub after_page :
      ℕ → List Row → Found Row → (Option ℕ → Found Row → Result (Found Row)) → Result (Found Row)
  after_page limit page found next = and_then (page_methods page) (λ methods.
      elim (ltb (length page) limit) [
        | true ↦ ok (add_page page methods found)
        | false ↦ next (last_key src.height page) (add_page page methods found)
      ])

  abbrev pub after_response :
      ℕ
      → Option (List Row)
      → Found Row
      → (Option ℕ → Found Row → Result (Found Row))
      → Result (Found Row)
  after_response limit none found next = ok found
  after_response limit (some page) found next = after_page limit page found next

  -- The loop: `left` counts down from MAX_LOOP.
  unfoldable pub query_loop : ℕ → ℕ → ℕ → Bounds → Found Row → Result (Found Row)
  query_loop limit total zero bounds found = ok found
  query_loop limit total (suc left) bounds found = elim (ltb (length found.rows) total) [
    | true ↦ and_then (src.fetch bounds) (λ response.
        after_response limit response found (λ below found'.
          query_loop limit total left (record bounds { height_lt = below }) found'))
    | false ↦ ok found
  ]

  unfoldable pub query_data : Bounds → Result (Found Row)
  query_data bounds =
      query_loop query_limit_record export_limit_record max_loop bounds
        (record { rows = []; methods = [] })
