-- ===== src/Examples/Documents.antt =====
-- Configuration documents.
use indexer_gateway_auth.Prelude.{String, ◌≡◌, refl, Option, none, some, List, ◌==◌, ◌||◌, arith}
use indexer_gateway_auth.Config.Toml.{Value, string, table, Table}
use indexer_gateway_auth.Config.Decode.{Toml, config_from}
use indexer_gateway_auth.Config.Decode.Document.{config_table}
use indexer_gateway_auth.Config.Decode.RoundTrip.{IsToml, config_from-config_table}
use indexer_gateway_auth.Config.Decode.Known.{IsDocumentKnown, config_from-IsKnown}
use indexer_gateway_auth.Examples.Samples.{config}

abbrev as_fields : List String → Value → Option Table
as_fields names (table t) = some t
as_fields names _ = none

abbrev variant_of : Value → Option String
variant_of (string s) = some s
variant_of _ = none

abbrev pub toml : Toml
toml = record {
  as_fields = as_fields;
  variant_of = variant_of;
  is_socket_addr = λ text.
      text == "0.0.0.0:8080"
      || text == "0.0.0.0:9090"
      || text == "0.0.0.0:8400"
      || text == "0.0.0.0:7300";
}

toml-IsToml : IsToml toml
toml-IsToml = record { as_fields-table = λ names t. refl; variant_of-string = λ s. refl }

config_from-config_table_example : config_from toml (config_table config) ≡ some config
config_from-config_table_example =
    config_from-config_table toml toml-IsToml config refl refl (omega arith) (omega arith)

config_from-IsKnown_example : IsDocumentKnown (config_table config)
config_from-IsKnown_example =
    config_from-IsKnown toml toml-IsToml (config_table config) config
      (config_from-config_table toml toml-IsToml config refl refl (omega arith) (omega arith))
