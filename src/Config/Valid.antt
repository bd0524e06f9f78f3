-- ===== src/Config/Valid.antt =====
-- What holds of a configuration after loading.
use market_bridge.Base.{
  ℕ, ◌≤◌, ◌≡◌, ◌≢◌, refl, false, Option, none, some, [], Bytes, arith, is_empty,
}
use market_bridge.Base.Result.{Result, returns}
use market_bridge.Config.{ServerConfig, UpstreamConfig, ThrottlingConfig, Config}
use market_bridge.Config.Library.{Spdlog, JsonLibrary, NumberLaws}
use market_bridge.Config.Keys.{
  min_port, max_port, server_key, tls_key, upstream_key, logging_key, throttling_key,
}
use market_bridge.Config.Read.{max_uint32, read_port, read_string, read_uint32}
use market_bridge.Config.Merge.{merge_json_config}
use market_bridge.Config.Numbers.{read_port_iff, read_uint32_iff}
use market_bridge.Config.Fields.{
  Takes, Merges, ServerMerged, TlsMerged, UpstreamMerged, ThrottlingMerged, LoggingMerged,
  merge_json_config_iff,
}

abbrev pub IsPort : ℕ → Type 0
IsPort p = (min_port ≤ p) × (p ≤ max_port)

-- Ports that can be listened on or connected to, a host to connect to, 32-bit limits.
pub record IsValid {Level : Type 0} (c : Config Level) : Type 0 where
  pub http_port : IsPort c.server.http_port
  pub https_port : IsPort c.server.https_port
  pub upstream_host : c.upstream.host ≢ []
  pub upstream_port : IsPort c.upstream.port
  pub requests_per_second : c.throttling.requests_per_second ≤ max_uint32
  pub burst_size : c.throttling.burst_size ≤ max_uint32

module _ (J : JsonLibrary) (laws : NumberLaws J) where
  open J use {Json, find}

  Takes-IsPort :
      (o : Option Json) (name : Bytes) (old new : ℕ)
      → Takes o (read_port J name) old new
      → IsPort old
      → IsPort new
  Takes-IsPort none name old new t h = ground arith
  Takes-IsPort (some v) name old new t h =
      let (_, _, low, high) = (read_port_iff J laws name v new).0 t in (low, high)

  Takes-uint32 :
      (o : Option Json) (name : Bytes) (old new : ℕ)
      → Takes o (read_uint32 J name) old new
      → old ≤ max_uint32
      → new ≤ max_uint32
  Takes-uint32 none name old new t h = ground arith
  Takes-uint32 (some v) name old new t h = ((read_uint32_iff J laws name v new).0 t).2

  Takes-nonempty :
      (o : Option Json) (name : Bytes) (old new : Bytes)
      → Takes o (read_string J name false) old new
      → old ≢ []
      → new ≢ []
  unfolding read_string is_empty
  Takes-nonempty none name old new t h = ground arith
  Takes-nonempty (some v) name old new t h = ground arith

  server-valid :
      (o : Option Json) (s t : ServerConfig)
      → Merges o (ServerMerged J) s t
      → IsPort s.http_port × IsPort s.https_port
      → IsPort t.http_port × IsPort t.https_port
  server-valid none s t m h = ground arith
  server-valid (some it) s t m h =
      (Takes-IsPort _ _ _ _ m.http_port h.0, Takes-IsPort _ _ _ _ m.https_port h.1)

  upstream-valid :
      (o : Option Json) (s t : UpstreamConfig)
      → Merges o (UpstreamMerged J) s t
      → (s.host ≢ []) × IsPort s.port
      → (t.host ≢ []) × IsPort t.port
  upstream-valid none s t m h = ground arith
  upstream-valid (some it) s t m h =
      (Takes-nonempty _ _ _ _ m.host h.0, Takes-IsPort _ _ _ _ m.port h.1)

  throttling-valid :
      (o : Option Json) (s t : ThrottlingConfig)
      → Merges o (ThrottlingMerged J) s t
      → (s.requests_per_second ≤ max_uint32) × (s.burst_size ≤ max_uint32)
      → (t.requests_per_second ≤ max_uint32) × (t.burst_size ≤ max_uint32)
  throttling-valid none s t m h = ground arith
  throttling-valid (some it) s t m h =
      (Takes-uint32 _ _ _ _ m.requests_per_second h.0, Takes-uint32 _ _ _ _ m.burst_size h.1)

  -- A document that is merged into a valid configuration gives a valid one.
  pub merge_json_config-IsValid :
      (S : Spdlog) (root : Json) (c d : Config S.Level)
      → merge_json_config J S root c ≡ (d, returns tt)
      → IsValid c
      → IsValid d
  merge_json_config-IsValid S root c d e h =
      let m = (merge_json_config_iff J S root c d).0 e in
      let s = server-valid _ _ _ m.server (h.http_port, h.https_port) in
      let u = upstream-valid _ _ _ m.upstream (h.upstream_host, h.upstream_port) in
      let t = throttling-valid _ _ _ m.throttling (h.requests_per_second, h.burst_size) in
      record {
        http_port = s.0;
        https_port = s.1;
        upstream_host = u.0;
        upstream_port = u.1;
        requests_per_second = t.0;
        burst_size = t.1;
      }

Takes_again :
    {A B : Type 0} (o : Option B) (read : B → Result A) (old new : A)
    → Takes o read old new
    → Takes o read new new
Takes_again none read old new t = refl
Takes_again (some v) read old new t = t

Merges-stay :
    {A B : Type 0} (o : Option B) (P : B → A → A → Type 0) (old new : A)
    → ((v : B) → P v old new → P v new new)
    → Merges o P old new
    → Merges o P new new
Merges-stay none P old new again m = refl
Merges-stay (some v) P old new again m = again v m

module _ (J : JsonLibrary) (S : Spdlog) where
  open S use {Level}

  -- Merging a document again changes nothing: what a document has set, it sets to the same value.
  merge_json_config_idem :
      (root : J.Json) (c d : Config Level)
      → merge_json_config J S root c ≡ (d, returns tt)
      → merge_json_config J S root d ≡ (d, returns tt)
  merge_json_config_idem root c d e =
      let m = (merge_json_config_iff J S root c d).0 e in
      (merge_json_config_iff J S root d d).1 (record {
        section = m.section;
        server =
            Merges-stay (J.find root server_key) (ServerMerged J) c.server d.server
              (λ v p. record {
                section = p.section;
                http_port = Takes_again _ _ _ _ p.http_port;
                https_port = Takes_again _ _ _ _ p.https_port;
                run_mode = Takes_again _ _ _ _ p.run_mode;
                allow_https = Takes_again _ _ _ _ p.allow_https;
                worker_threads = refl;
              })
              m.server;
        tls =
            Merges-stay (J.find root tls_key) (TlsMerged J) c.tls d.tls
              (λ v p. record {
                section = p.section;
                certificate = Takes_again _ _ _ _ p.certificate;
                private_key = Takes_again _ _ _ _ p.private_key;
              })
              m.tls;
        upstream =
            Merges-stay (J.find root upstream_key) (UpstreamMerged J) c.upstream d.upstream
              (λ v p. record {
                section = p.section;
                host = Takes_again _ _ _ _ p.host;
                port = Takes_again _ _ _ _ p.port;
                ignore = Takes_again _ _ _ _ p.ignore;
              })
              m.upstream;
        logging =
            Merges-stay (J.find root logging_key) (LoggingMerged J S) c.logging d.logging
              (λ v p. record {
                section = p.section;
                output = Takes_again _ _ _ _ p.output;
                level = Takes_again _ _ _ _ p.level;
              })
              m.logging;
        throttling =
            Merges-stay (J.find root throttling_key) (ThrottlingMerged J) c.throttling d.throttling
              (λ v p. record {
                section = p.section;
                enabled = Takes_again _ _ _ _ p.enabled;
                requests_per_second = Takes_again _ _ _ _ p.requests_per_second;
                burst_size = Takes_again _ _ _ _ p.burst_size;
              })
              m.throttling;
        config_path = refl;
      })
