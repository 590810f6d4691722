-- ===== src/Bingx/Signing.antt =====
-- server/internal/bingx/auth.go: the query string of a request, its signature and its timestamp.
pub mod Determinism
pub mod Maps
use botbtc.Prelude.{
  ℤ, sub64, Option, none, some, String, concat, List, [], ◌∷◌, Dict, lookup, insert,
}

-- `m[key]`, which is empty for a missing key
abbrev pub value_of : Dict String → String → String
value_of params key = elim (lookup key params) [ none ↦ "" | some value ↦ value ]

abbrev pub keys : Dict String → List String
keys [] = []
keys ((key, value) ∷ params) = key ∷ keys params

-- The loop of `BuildQueryString` after its first round, and the whole loop.
unfoldable pub more_pairs : Dict String → List String → String
more_pairs params [] = ""
more_pairs params (key ∷ later) =
    concat (concat (concat "&" key) (concat "=" (value_of params key))) (more_pairs params later)

unfoldable pub join_pairs : Dict String → List String → String
unfolding more_pairs
join_pairs params [] = ""
join_pairs params (key ∷ later) =
    concat (concat key (concat "=" (value_of params key))) (more_pairs params later)

-- `sort` stands for sort.Strings.
module _ (sort : List String → List String) where
  -- `BuildQueryString`
  unfoldable pub build_query_string : Dict String → String
  unfolding join_pairs
  build_query_string [] = ""
  build_query_string (param ∷ params) = join_pairs (param ∷ params) (sort (keys (param ∷ params)))

  -- `SignRequest`; `hmac` is HMAC-SHA256 of a key and a text, in hexadecimal.
  unfoldable pub sign_request :
      (hmac : String → String → String) (api_secret : String) → Dict String → String
  unfolding build_query_string
  sign_request hmac api_secret params = hmac api_secret (build_query_string params)

-- `AddTimestamp`; `decimal` is fmt.Sprintf("%d").
unfoldable pub add_timestamp :
    (decimal : ℤ → String) (local_ms server_time_delta : ℤ) → Dict String → Dict String
add_timestamp decimal local_ms server_time_delta params =
    insert "timestamp" (decimal (sub64 local_ms server_time_delta)) params
