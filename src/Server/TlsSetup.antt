-- ===== src/Server/TlsSetup.antt =====
-- Server::init_ssl_context. The calls of OpenSSL are parameters: how each of them ends.
use market_bridge.Base.{
  ◌≡◌, ◌↔◌, ◌⊎◌, Bool, true, false, Option, some, Bytes, is_empty, arith, if◌then◌else◌,
}

-- How a call of the context ends: it returns, it throws asio::system_error, or it throws something else.
pub data CallEnd : Type 0 where
  returned system_error other_exception : CallEnd

pub record OpenSsl : Type 0 where
  pub set_options : CallEnd
  pub use_certificate_chain_file : Bytes → CallEnd
  pub use_private_key_file : Bytes → CallEnd

-- What has been set on ssl_context_: the options, the certificate, the key, the information callback.
pub record SslContext : Type 0 where
  pub options : Bool
  pub certificate : Option Bytes
  pub private_key : Option Bytes
  pub info_callback : Bool

-- How init_ssl_context ends: with its result, or with an exception that it does not catch.
pub data SetUp : Type 0 where
  result : Bool → SetUp
  escapes : SetUp

-- The statements of the try block, each of which goes on only where the one before has returned. A
-- system_error is caught and makes the result false.
unfoldable then_do : CallEnd → SslContext → (SslContext × SetUp) → SslContext × SetUp
then_do returned c rest = rest
then_do system_error c rest = (c, result false)
then_do other_exception c rest = (c, escapes)

unfoldable set_callback : SslContext → SslContext × SetUp
set_callback c = (record c { info_callback = true }, result true)

unfoldable set_private_key : OpenSsl → Bytes → SslContext → SslContext × SetUp
unfolding then_do set_callback
set_private_key ssl file c =
    let set = record c { private_key = some file } in
    if is_empty file
    then set_callback c
    else then_do (ssl.use_private_key_file file) c (set_callback set)

unfoldable set_certificate : OpenSsl → Bytes → Bytes → SslContext → SslContext × SetUp
unfolding then_do set_private_key
set_certificate ssl certificate file c =
    let set = record c { certificate = some certificate } in
    if is_empty certificate
    then set_private_key ssl file c
    else then_do (ssl.use_certificate_chain_file certificate) c (set_private_key ssl file set)

unfoldable pub init_ssl_context : OpenSsl → Bytes → Bytes → SslContext → SslContext × SetUp
unfolding then_do set_certificate
init_ssl_context ssl certificate file c =
    then_do ssl.set_options c (set_certificate ssl certificate file (record c { options = true }))

-- A file that is named is loaded; none is loaded if none is named.
abbrev pub Loads : Bytes → CallEnd → Type 0
Loads file end = (is_empty file ≡ true) ⊎ (end ≡ returned)

abbrev pub named : Bytes → Option Bytes → Option Bytes
named file old = if is_empty file then old else some file

-- The set-up succeeds exactly if the options can be set and every file that is named can be loaded, and
-- then the context has the options, the callback and the files that are named.
pub init_ssl_context_iff :
    (ssl : OpenSsl) (certificate file : Bytes) (c d : SslContext)
    → (init_ssl_context ssl certificate file c ≡ (d, result true)) ↔ (
        (ssl.set_options ≡ returned)
        × Loads certificate (ssl.use_certificate_chain_file certificate)
        × Loads file (ssl.use_private_key_file file)
        × (d ≡ record {
          options = true;
          certificate = named certificate c.certificate;
          private_key = named file c.private_key;
          info_callback = true;
        }))
unfolding init_ssl_context
init_ssl_context_iff ssl certificate file c d = (λ h. ground arith, λ h. ground arith)

-- What an earlier attempt has left does not count: ssl_handshake tries again on the same context, and a
-- set-up that would succeed on the context before another attempt succeeds behind it, and leaves the
-- same context.
init_ssl_context_retry :
    (ssl before : OpenSsl) (certificate file : Bytes) (c : SslContext)
    → (init_ssl_context ssl certificate file c).1 ≡ result true
    → init_ssl_context ssl certificate file (init_ssl_context before certificate file c).0
      ≡ init_ssl_context ssl certificate file c
unfolding init_ssl_context
init_ssl_context_retry ssl before certificate file c h = ground arith
