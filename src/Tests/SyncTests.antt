-- ===== src/Tests/SyncTests.antt =====
-- The theorems on the sync contract at a concrete definition.
use react_native_salve_db.Prelude.{◌≡◌, refl, true, false, [], ◌∷◌, Bytes, text, str_eq, ℤ, pos, ok}
use react_native_salve_db.Json.{Value, string, object, end, field, get, has, get_string}
use react_native_salve_db.Http.UrlTemplate.{
  Segment, parse, parse_loop, parse_round, parse_token, split_at_close, flush_literal,
  push_variable, is_known_token, vocabulary_for, is_one_of, begins_with, is_illegal_raw_char,
  references,
}
use react_native_salve_db.Sync.Contract.{
  SyncContract, require_string, string_or_default, item_path_of, list_query_raw, list_query_of,
  is_valid_conflict_strategy, read_conflict_defaults, parse_conflict, size_of, contract_of,
  from_definition, parse_extra_headers,
}
use react_native_salve_db.Sync.Contract.WellFormed.{IsWellFormed, from_definition-IsWellFormed}
use react_native_salve_db.Tests.Doubles.{integer_double}

abbrev definition : Value ℤ
definition = object (
    field (text "endpoint")
      (object (
        field (text "basePath") (string (text "/t"))
          (field (text "listQueryTemplate") (string (text "s={since}&l={limit}")) end)))
      end)

abbrev literal : Bytes → Segment
literal s = record { is_variable = false; content = s }

abbrev variable : Bytes → Segment
variable s = record { is_variable = true; content = s }

abbrev contract : SyncContract
contract = record {
  endpoint = record {
    base_path = text "/t";
    item_path_template = record {
      segments = variable (text "basePath") ∷ literal (text "/") ∷ variable (text "id") ∷ [];
      parsed = true;
    };
    list_query_template = record {
      segments =
          literal (text "s=")
          ∷ variable (text "since")
          ∷ literal (text "&l=")
          ∷ variable (text "limit")
          ∷ [];
      parsed = true;
    };
    extra_headers = [];
    cursor_field = text "updatedAt";
  };
  conflict = record {
    strategy = text "lastWriteWins";
    conflict_field = text "updatedAt";
    field_explicit = false;
  };
  page_size = pos 20;
  max_pages_per_session = pos 20;
}

accepted : from_definition definition false ≡ ok contract
unfolding from_definition contract_of require_string item_path_of string_or_default list_query_of
    list_query_raw references parse_conflict read_conflict_defaults is_valid_conflict_strategy
    size_of parse_extra_headers text get has get_string str_eq parse parse_loop parse_round
    parse_token split_at_close flush_literal push_variable is_known_token vocabulary_for is_one_of
    begins_with is_illegal_raw_char
accepted = refl

from_definition-IsWellFormed_example : IsWellFormed contract
from_definition-IsWellFormed_example = from_definition-IsWellFormed definition false accepted
