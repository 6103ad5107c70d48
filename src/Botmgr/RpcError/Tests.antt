-- ===== src/Botmgr/RpcError/Tests.antt =====
-- Errors of Telegram as the library words them.
use tgbotd.Prelude.{◌≡◌, refl}
use tgbotd.Prelude.Bytes.{codes, bytes_eq, has_prefix, index_byte}
use tgbotd.Botmgr.RpcError.{
  extract_tag, code_of_tag, tagged_error, map_rpc_error, one_of, has_prefix_of,
}

forbidden_code : (map_rpc_error (codes "[USER_IS_BLOCKED] no") 0).code ≡ 403
unfolding map_rpc_error tagged_error extract_tag index_byte code_of_tag one_of has_prefix_of
    bytes_eq has_prefix
forbidden_code = refl
