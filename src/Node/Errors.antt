-- ===== src/Node/Errors.antt =====
-- `FetchError` of src/error.rs. What another library's error carries is the text that it prints.
use Prim.Native.String.{String, ◌++◌}

pub data FetchError : Type 0 where
  tokio_join bitcoin_core_rpc bitcoin_core_rest command : String → FetchError
  btcd_rpc esplora_rest min_req data_error electrum_client : String → FetchError
  -- the node and the operation
  not_supported : String → String → FetchError

-- `Display`
unfoldable pub fetch_error_to_string : FetchError → String
fetch_error_to_string (tokio_join e) = "TokioJoin Error: " ++ e
fetch_error_to_string (bitcoin_core_rpc e) = "Bitcoin Core RPC Error: " ++ e
fetch_error_to_string (command e) = "Command execution error: " ++ e
fetch_error_to_string (btcd_rpc e) = "btcd Error: " ++ e
fetch_error_to_string (bitcoin_core_rest e) = "Bitcoin Core REST Error: " ++ e
fetch_error_to_string (esplora_rest e) = "Esplora REST Error: " ++ e
fetch_error_to_string (min_req e) = "MinReq HTTP GET request error: " ++ e
fetch_error_to_string (data_error e) = "Invalid data response error " ++ e
fetch_error_to_string (not_supported node operation) =
    "Operation '" ++ operation ++ "' is not supported by node '" ++ node ++ "'"
fetch_error_to_string (electrum_client e) = "Electrum client error " ++ e
