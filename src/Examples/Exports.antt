-- ===== src/Examples/Exports.antt =====
-- Exported tables, sizes and durations.
use karadul.Base.{
  ℕ, suc, ◌+◌, ◌*◌, ◌/◌, ◌^◌, ◌≤◌, ◌<◌, ◌≡◌, refl, none, negsuc, some, List, [], ◌∷◌, ◌++◌, map,
  arith, ltb, if◌then◌else◌, get_elem?, Text, codes, show_number,
}
use karadul.Csv.{to_csv, NodeColumn, hostname, is_exit_node, node_column_name, node_value}
use karadul.Store.{Peer, direct}
use karadul.Json.{
  JsonValue, string, number, array, object, empty_array, item, empty_object, field, stringify,
}
use karadul.Json.Reader.{read_json}
use karadul.Json.RoundTrip.{read_json-stringify}
use karadul.Csv.Documents.{export_nodes_json, export_peers_json}
use karadul.Csv.Documents.Lossless.{file_nodes, file_peers, files-export_json}
use karadul.Csv.Reader.{read_csv}
use karadul.Csv.RoundTrip.{shown, values, read_csv-to_csv}
use karadul.Format.{sizes, mantissa, show_fixed, format_bytes, format_duration}
use karadul.Format.Bytes.{IsLog, div_bounds, format_bytes_lem}
use karadul.Format.Duration.{IsNearest}
use karadul.Examples.Data.{laptop, server}

abbrev two_columns : List NodeColumn
two_columns = hostname ∷ is_exit_node ∷ []

read_csv-to_csv_example :
    read_csv (to_csv node_column_name node_value (laptop ∷ server ∷ []) two_columns)
    ≡ map node_column_name two_columns
      ∷ map
          (λ item. map shown (values node_column_name node_value two_columns item))
          (laptop ∷ server ∷ [])
read_csv-to_csv_example =
    read_csv-to_csv node_column_name node_value hostname (is_exit_node ∷ []) (laptop ∷ server ∷ [])
      ((refl, refl, refl), ((refl, refl, refl), tt))
      (((refl, refl), (tt, tt)), (((refl, refl), (tt, tt)), tt))

-- The whole logarithm to the base 1024, by comparison with its powers.
floor_log : ℕ → ℕ
floor_log n =
    if ltb n (1024 ^ 1)
    then 0
    else if ltb n (1024 ^ 2)
    then 1
    else if ltb n (1024 ^ 3)
    then 2
    else if ltb n (1024 ^ 4)
    then 3
    else if ltb n (1024 ^ 5)
    then 4
    else 5

floor_log-lower : (n : ℕ) → 0 < n → n < 10 ^ 15 → 1024 ^ floor_log n ≤ n
unfolding floor_log
floor_log-lower n l u = ground arith

floor_log-upper : (n : ℕ) → 0 < n → n < 10 ^ 15 → n < 1024 ^ suc (floor_log n)
unfolding floor_log
floor_log-upper n l u = ground arith

floor_log-IsLog : IsLog floor_log
floor_log-IsLog = record { lower = floor_log-lower; upper = floor_log-upper }

format_bytes_lem_example :
    let unit = 1024 ^ floor_log 1536 in
    let m = mantissa floor_log 1536 2 in
    (name : Text) × (get_elem? sizes (floor_log 1536) ≡ some name)
    × (format_bytes floor_log 1536 2 ≡ show_fixed 2 m ++ codes " " ++ name)
    × (2 * unit * m ≤ 2 * 1536 * 10 ^ 2 + unit)
    × (2 * 1536 * 10 ^ 2 < 2 * unit * m + unit)
    × (10 ^ 2 ≤ m)
    × (m ≤ 1024 * 10 ^ 2)
format_bytes_lem_example =
    format_bytes_lem floor_log 1536 2 floor_log-IsLog (omega arith) (omega arith) (omega arith)

format_bytes_test : format_bytes floor_log 1536 2 ≡ codes "1.5 KB"
unfolding format_bytes floor_log show_number
format_bytes_test = refl

-- The nearest number of tenths, the larger of two.
near_tenths : ℕ → ℕ → ℕ
near_tenths a b = (20 * a + b) / (2 * b)

near_tenths-IsNearest : IsNearest near_tenths
unfolding near_tenths
near_tenths-IsNearest = record {
  not_above = λ a b h s. grind (arith, div_bounds (20 * a + b) (2 * b));
  not_below = λ a b h s. grind (arith, div_bounds (20 * a + b) (2 * b));
}

format_duration_test : format_duration near_tenths 90000 ≡ codes "1.5m"
unfolding format_duration near_tenths show_number
format_duration_test = refl

abbrev phone : Peer
phone = record {
  id = codes "p";
  hostname = codes "the \"phone\"";
  virtual_ip = codes "100.64.0.9";
  state = direct;
  endpoint = none;
  last_handshake = some (codes "2024-01-01");
  rx_bytes = 0;
  tx_bytes = 12;
  latency = some 3;
}

abbrev blob_url : Text → Text → Text
blob_url content mime_type = codes "blob:1"

files-export_json_example :
    (file_nodes (export_nodes_json blob_url (codes "2024-01-01T00") (laptop ∷ server ∷ []))
      ≡ some (laptop ∷ server ∷ []))
    × (file_peers (export_peers_json blob_url (codes "2024-01-01T00") (phone ∷ []))
        ≡ some (phone ∷ []))
files-export_json_example =
    files-export_json blob_url (codes "2024-01-01T00") (laptop ∷ server ∷ []) (phone ∷ [])

abbrev nested : JsonValue
nested = array (
    item (string (codes "a\"b"))
      (item (object (field (codes "n") (number (negsuc 11)) empty_object)) empty_array))

nested_read : read_json (stringify 2 nested) ≡ some nested
nested_read = read_json-stringify 2 nested

stringify_test : stringify 0 nested ≡ codes "[\"a\\\"b\",{\"n\":-12}]"
unfolding stringify show_number
stringify_test = refl
