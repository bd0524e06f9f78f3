-- ===== src/Config/Fields.antt =====
-- What a merge does to each field, section by section.
use market_bridge.Base.{
  ◌≡◌, ◌↔◌, refl, ap, sym, subst, ◌∙◌, true, false, Option, none, some, List, All, Bytes, arith,
}
use market_bridge.Base.Result.{Result, returns, throws}
use market_bridge.Config.{
  ServerConfig, TlsConfig, UpstreamConfig, LoggingConfig, ThrottlingConfig, Config,
}
use market_bridge.Config.Library.{Spdlog, JsonLibrary}
use market_bridge.Config.Keys.{
  server_key, tls_key, upstream_key, logging_key, throttling_key, root_keys, server_keys, tls_keys,
  upstream_keys, logging_keys, throttling_keys, http_port_key, https_port_key, run_mode_key,
  allow_https_over_http_port_key, certificate_key, private_key_key, host_key, port_key,
  ignore_certificate_verification_key, output_key, level_key, enabled_key, requests_per_second_key,
  burst_size_key, configuration_root_name, root_name, server_http_port_name, server_https_port_name,
  server_allow_https_over_http_port_name, tls_certificate_name, tls_private_key_name,
  upstream_host_name, upstream_port_name, upstream_ignore_certificate_verification_name,
  throttling_enabled_name, throttling_requests_per_second_name, throttling_burst_size_name,
}
use market_bridge.Config.Read.{
  validate_keys, obtain_object, read_port, read_string, read_bool, read_uint32, read_run_mode,
  read_log_output, read_log_level,
}
use market_bridge.Config.Validate.{IsKnown, validate_keys_iff}
use market_bridge.Config.Merge.{
  Done, ◌>>>◌, assign, assign_section, place_server, place_tls, place_upstream, place_logging,
  place_throttling, merge_server, merge_tls, merge_upstream, merge_throttling, merge_logging,
  merge_json_config,
}

-- The field keeps its value where the key is absent, and otherwise has the value that is read.
abbrev pub Takes : {A B : Type 0} → Option B → (B → Result A) → A → A → Type 0
Takes none read old new = new ≡ old
Takes (some value) read old new = read value ≡ returns new

-- The section keeps its fields where it is absent, and is otherwise merged as `P` says.
abbrev pub Merges : {A B : Type 0} → Option B → (B → A → A → Type 0) → A → A → Type 0
Merges none P old new = new ≡ old
Merges (some value) P old new = P value old new

module _ (J : JsonLibrary) where
  open J use {Json, is_object, find, items}

  -- The value is an object that holds none but these keys.
  pub record IsSection (it : Json) (keys : List Bytes) : Type 0 where
    pub object : is_object it ≡ true
    pub known : All (IsKnown J keys) (items it)

  pub record ServerMerged (it : Json) (s t : ServerConfig) : Type 0 where
    pub section : IsSection it server_keys
    pub http_port :
        Takes (find it http_port_key) (read_port J server_http_port_name) s.http_port t.http_port
    pub https_port :
        Takes
          (find it https_port_key)
          (read_port J server_https_port_name)
          s.https_port
          t.https_port
    pub run_mode : Takes (find it run_mode_key) (read_run_mode J) s.run_mode t.run_mode
    pub allow_https :
        Takes
          (find it allow_https_over_http_port_key)
          (read_bool J server_allow_https_over_http_port_name)
          s.allow_https_over_http_port
          t.allow_https_over_http_port
    pub worker_threads : t.worker_threads ≡ s.worker_threads

  merge_server_iff :
      (it : Json) (s t : ServerConfig)
      → (merge_server J it s ≡ (t, returns tt)) ↔ ServerMerged it s t
  unfolding merge_server assign obtain_object
  merge_server_iff it s t =
      let (known, passes) = validate_keys_iff J it server_keys server_key in
      (λ h. ground (arith, known), λ h. ground (arith, passes h.section.known))

  pub record TlsMerged (it : Json) (s t : TlsConfig) : Type 0 where
    pub section : IsSection it tls_keys
    pub certificate :
        Takes
          (find it certificate_key)
          (read_string J tls_certificate_name true)
          s.certificate
          t.certificate
    pub private_key :
        Takes
          (find it private_key_key)
          (read_string J tls_private_key_name true)
          s.private_key
          t.private_key

  merge_tls_iff :
      (it : Json) (s t : TlsConfig) → (merge_tls J it s ≡ (t, returns tt)) ↔ TlsMerged it s t
  unfolding merge_tls assign obtain_object
  merge_tls_iff it s t =
      let (known, passes) = validate_keys_iff J it tls_keys tls_key in
      (λ h. ground (arith, known), λ h. ground (arith, passes h.section.known))

  pub record UpstreamMerged (it : Json) (s t : UpstreamConfig) : Type 0 where
    pub section : IsSection it upstream_keys
    pub host : Takes (find it host_key) (read_string J upstream_host_name false) s.host t.host
    pub port : Takes (find it port_key) (read_port J upstream_port_name) s.port t.port
    pub ignore :
        Takes
          (find it ignore_certificate_verification_key)
          (read_bool J upstream_ignore_certificate_verification_name)
          s.ignore_certificate_verification
          t.ignore_certificate_verification

  merge_upstream_iff :
      (it : Json) (s t : UpstreamConfig)
      → (merge_upstream J it s ≡ (t, returns tt)) ↔ UpstreamMerged it s t
  unfolding merge_upstream assign obtain_object
  merge_upstream_iff it s t =
      let (known, passes) = validate_keys_iff J it upstream_keys upstream_key in
      (λ h. ground (arith, known), λ h. ground (arith, passes h.section.known))

  pub record ThrottlingMerged (it : Json) (s t : ThrottlingConfig) : Type 0 where
    pub section : IsSection it throttling_keys
    pub enabled :
        Takes (find it enabled_key) (read_bool J throttling_enabled_name) s.enabled t.enabled
    pub requests_per_second :
        Takes
          (find it requests_per_second_key)
          (read_uint32 J throttling_requests_per_second_name)
          s.requests_per_second
          t.requests_per_second
    pub burst_size :
        Takes
          (find it burst_size_key)
          (read_uint32 J throttling_burst_size_name)
          s.burst_size
          t.burst_size

  merge_throttling_iff :
      (it : Json) (s t : ThrottlingConfig)
      → (merge_throttling J it s ≡ (t, returns tt)) ↔ ThrottlingMerged it s t
  unfolding merge_throttling assign obtain_object
  merge_throttling_iff it s t =
      let (known, passes) = validate_keys_iff J it throttling_keys throttling_key in
      (λ h. ground (arith, known), λ h. ground (arith, passes h.section.known))

  module _ (S : Spdlog) where
    open S use {Level}

    pub record LoggingMerged (it : Json) (s t : LoggingConfig Level) : Type 0 where
      pub section : IsSection it logging_keys
      pub output : Takes (find it output_key) (read_log_output J) s.output t.output
      pub level : Takes (find it level_key) (read_log_level J S) s.level t.level

    merge_logging_iff :
        (it : Json) (s t : LoggingConfig Level)
        → (merge_logging J S it s ≡ (t, returns tt)) ↔ LoggingMerged it s t
    unfolding merge_logging assign obtain_object
    merge_logging_iff it s t =
        let (known, passes) = validate_keys_iff J it logging_keys logging_key in
        (λ h. ground (arith, known), λ h. ground (arith, passes h.section.known))

    -- The whole document: every field, and what stays.
    pub record Merged (root : Json) (c d : Config Level) : Type 0 where
      pub section : IsSection root root_keys
      pub server : Merges (find root server_key) ServerMerged c.server d.server
      pub tls : Merges (find root tls_key) TlsMerged c.tls d.tls
      pub upstream : Merges (find root upstream_key) UpstreamMerged c.upstream d.upstream
      pub logging : Merges (find root logging_key) LoggingMerged c.logging d.logging
      pub throttling : Merges (find root throttling_key) ThrottlingMerged c.throttling d.throttling
      pub config_path : d.config_path ≡ c.config_path

    -- A section is merged as its own theorem says, and is put in its place.
    assign_section_iff :
        {A : Type 0} (o : Option Json) (merge : Json → A → Done A) (P : Json → A → A → Type 0)
        (get : Config Level → A) (put : A → Config Level → Config Level) (c d : Config Level)
        → ((it : Json) (s t : A) → (merge it s ≡ (t, returns tt)) ↔ P it s t)
        → put (get c) c ≡ c
        → (assign_section o merge get put c ≡ (d, returns tt))
          ↔ ((a : A) × Merges o P (get c) a × (d ≡ put a c))
    unfolding assign_section
    assign_section_iff none merge P get put c d each same = (
      λ e. (get c, refl, ap (λ (x : Done (Config Level)). x.0) (sym e) ∙ sym same),
      λ (a, m, q).
          ap (λ (x : Config Level). (x, returns tt)) (sym (q ∙ ap (λ x. put x c) m ∙ same)),
    )
    assign_section_iff {A} (some it) merge P get put c d each same = (
      λ e.
          let r : (merge it (get c)).1 ≡ returns tt = ap (λ (x : Done (Config Level)). x.1) e in
          (
            (merge it (get c)).0,
            (each it (get c) (merge it (get c)).0).0 (ap (λ y. ((merge it (get c)).0, y)) r),
            ap (λ (x : Done (Config Level)). x.0) (sym e),
          ),
      λ (a, m, q).
          ap (λ (x : Done A). (put x.0 c, x.1)) ((each it (get c) a).1 m)
          ∙ ap (λ (x : Config Level). (x, returns tt)) (sym q),
    )

    -- A sequence that returns has returned from each of its statements.
    both_return :
        {A : Type 0} (m : Done A) (rest : A → Done A) (b : A)
        → (m >>> rest) ≡ (b, returns tt)
        → (a : A) × (m ≡ (a, returns tt)) × (rest a ≡ (b, returns tt))
    both_return (a, returns tt) rest b e = (a, refl, e)
    both_return (a, throws x) rest b e = absurd (cc (ap (λ (y : Done _). y.1) e))

    first_returns :
        {A : Type 0} (m : Done A) (a : A) (rest : A → Done A)
        → m ≡ (a, returns tt)
        → (m >>> rest) ≡ rest a
    first_returns m a rest e = ap (λ x. x >>> rest) e

    obtain_object_iff :
        (it : Json) (name : Bytes) → (obtain_object J it name ≡ returns tt) ↔ (is_object it ≡ true)
    unfolding obtain_object
    obtain_object_iff it name = (λ h. ground arith, λ h. ground arith)

    place_server_iff :
        (root : Json) (c d : Config Level)
        → (place_server J S root c ≡ (d, returns tt)) ↔ (
            (a : ServerConfig) × Merges (find root server_key) ServerMerged c.server a
            × (d ≡ record c { server = a }))
    unfolding place_server
    place_server_iff root c d =
        assign_section_iff (find root server_key) _ ServerMerged _ _ c d merge_server_iff refl

    place_tls_iff :
        (root : Json) (c d : Config Level)
        → (place_tls J S root c ≡ (d, returns tt)) ↔ (
            (a : TlsConfig) × Merges (find root tls_key) TlsMerged c.tls a
            × (d ≡ record c { tls = a }))
    unfolding place_tls
    place_tls_iff root c d =
        assign_section_iff (find root tls_key) _ TlsMerged _ _ c d merge_tls_iff refl

    place_upstream_iff :
        (root : Json) (c d : Config Level)
        → (place_upstream J S root c ≡ (d, returns tt)) ↔ (
            (a : UpstreamConfig) × Merges (find root upstream_key) UpstreamMerged c.upstream a
            × (d ≡ record c { upstream = a }))
    unfolding place_upstream
    place_upstream_iff root c d =
        assign_section_iff (find root upstream_key) _ UpstreamMerged _ _ c d merge_upstream_iff refl

    place_logging_iff :
        (root : Json) (c d : Config Level)
        → (place_logging J S root c ≡ (d, returns tt)) ↔ (
            (a : LoggingConfig Level) × Merges (find root logging_key) LoggingMerged c.logging a
            × (d ≡ record c { logging = a }))
    unfolding place_logging
    place_logging_iff root c d =
        assign_section_iff (find root logging_key) _ LoggingMerged _ _ c d merge_logging_iff refl

    place_throttling_iff :
        (root : Json) (c d : Config Level)
        → (place_throttling J S root c ≡ (d, returns tt)) ↔ (
            (a : ThrottlingConfig) × Merges
              (find root throttling_key)
              ThrottlingMerged
              c.throttling
              a
            × (d ≡ record c { throttling = a }))
    unfolding place_throttling
    place_throttling_iff root c d =
        assign_section_iff (find root throttling_key) _ ThrottlingMerged _ _ c d
          merge_throttling_iff refl

    merge_json_config-Merged :
        (root : Json) (c d : Config Level)
        → merge_json_config J S root c ≡ (d, returns tt)
        → Merged root c d
    unfolding merge_json_config
    merge_json_config-Merged root c d h =
        let (known, passes) = validate_keys_iff J root root_keys root_name in
        let (object, right) = obtain_object_iff root configuration_root_name in
        let p : Done (Config Level) = (c, obtain_object J root configuration_root_name) in
        let check : Config Level → Done (Config Level) =
          λ x. (x, validate_keys J root root_keys root_name) in
        let p0 : Done (Config Level) = p >>> check in
        let p1 : Done (Config Level) = p0 >>> place_server J S root in
        let p2 : Done (Config Level) = p1 >>> place_tls J S root in
        let p3 : Done (Config Level) = p2 >>> place_upstream J S root in
        let p4 : Done (Config Level) = p3 >>> place_logging J S root in
        let (c4, h4, e5) = both_return p4 (place_throttling J S root) d h in
        let (c3, h3, e4) = both_return p3 (place_logging J S root) c4 h4 in
        let (c2, h2, e3) = both_return p2 (place_upstream J S root) c3 h3 in
        let (c1, h1, e2) = both_return p1 (place_tls J S root) c2 h2 in
        let (c0, h0, e1) = both_return p0 (place_server J S root) c1 h1 in
        let (b, hb, e0) = both_return p check c0 h0 in
        let q : c ≡ c0 =
          ap (λ (x : Done (Config Level)). x.0) hb ∙ ap (λ (x : Done (Config Level)). x.0) e0 in
        let (a1, m1, r1) = (place_server_iff root c0 c1).0 e1 in
        let E1 : c1 ≡ record c { server = a1 } =
          r1 ∙ ap (λ (x : Config Level). record x { server = a1 }) (sym q) in
        let (a2, m2, r2) = (place_tls_iff root c1 c2).0 e2 in
        let E2 : c2 ≡ record c { server = a1; tls = a2 } =
          r2 ∙ ap (λ (x : Config Level). record x { tls = a2 }) E1 in
        let (a3, m3, r3) = (place_upstream_iff root c2 c3).0 e3 in
        let E3 : c3 ≡ record c { server = a1; tls = a2; upstream = a3 } =
          r3 ∙ ap (λ (x : Config Level). record x { upstream = a3 }) E2 in
        let (a4, m4, r4) = (place_logging_iff root c3 c4).0 e4 in
        let E4 : c4 ≡ record c { server = a1; tls = a2; upstream = a3; logging = a4 } =
          r4 ∙ ap (λ (x : Config Level). record x { logging = a4 }) E3 in
        let (a5, m5, r5) = (place_throttling_iff root c4 d).0 e5 in
        let E5 : d
            ≡ record c { server = a1; tls = a2; upstream = a3; logging = a4; throttling = a5 } =
          r5 ∙ ap (λ (x : Config Level). record x { throttling = a5 }) E4 in
        subst (λ (x : Config Level). Merged root c x) (sym E5)
          (record {
            section = record {
              object = object (ap (λ (x : Done (Config Level)). x.1) hb);
              known = known (ap (λ (x : Done (Config Level)). x.1) e0);
            };
            server =
                subst (λ (x : Config Level). Merges (find root server_key) ServerMerged x.server a1)
                  (sym q) m1;
            tls = subst (λ (x : Config Level). Merges (find root tls_key) TlsMerged x.tls a2) E1 m2;
            upstream =
                subst
                  (λ (x : Config Level).
                    Merges (find root upstream_key) UpstreamMerged x.upstream a3)
                  E2 m3;
            logging =
                subst
                  (λ (x : Config Level). Merges (find root logging_key) LoggingMerged x.logging a4)
                  E3 m4;
            throttling =
                subst
                  (λ (x : Config Level).
                    Merges (find root throttling_key) ThrottlingMerged x.throttling a5)
                  E4 m5;
            config_path = refl;
          })

    Merged-merge_json_config :
        (root : Json) (c d : Config Level)
        → Merged root c d
        → merge_json_config J S root c ≡ (d, returns tt)
    unfolding merge_json_config
    Merged-merge_json_config root c d h =
        let (known, passes) = validate_keys_iff J root root_keys root_name in
        let (object, right) = obtain_object_iff root configuration_root_name in
        let p : Done (Config Level) = (c, obtain_object J root configuration_root_name) in
        let check : Config Level → Done (Config Level) =
          λ x. (x, validate_keys J root root_keys root_name) in
        let p0 : Done (Config Level) = p >>> check in
        let p1 : Done (Config Level) = p0 >>> place_server J S root in
        let p2 : Done (Config Level) = p1 >>> place_tls J S root in
        let p3 : Done (Config Level) = p2 >>> place_upstream J S root in
        let p4 : Done (Config Level) = p3 >>> place_logging J S root in
        let f0 : p0 ≡ (c, returns tt) =
          first_returns p c check (ap (λ r. (c, r)) (right h.section.object))
          ∙ ap (λ r. (c, r)) (passes h.section.known) in
        let t1 : Config Level = record c { server = d.server } in
        let f1 : p1 ≡ (t1, returns tt) =
          first_returns p0 c (place_server J S root) f0
          ∙ (place_server_iff root c t1).1 (d.server, h.server, refl) in
        let t2 : Config Level = record c { server = d.server; tls = d.tls } in
        let f2 : p2 ≡ (t2, returns tt) =
          first_returns p1 t1 (place_tls J S root) f1
          ∙ (place_tls_iff root t1 t2).1 (d.tls, h.tls, refl) in
        let t3 : Config Level = record c {
          server = d.server;
          tls = d.tls;
          upstream = d.upstream;
        } in
        let f3 : p3 ≡ (t3, returns tt) =
          first_returns p2 t2 (place_upstream J S root) f2
          ∙ (place_upstream_iff root t2 t3).1 (d.upstream, h.upstream, refl) in
        let t4 : Config Level = record c {
          server = d.server;
          tls = d.tls;
          upstream = d.upstream;
          logging = d.logging;
        } in
        let f4 : p4 ≡ (t4, returns tt) =
          first_returns p3 t3 (place_logging J S root) f3
          ∙ (place_logging_iff root t3 t4).1 (d.logging, h.logging, refl) in
        let t5 : Config Level = record c {
          server = d.server;
          tls = d.tls;
          upstream = d.upstream;
          logging = d.logging;
          throttling = d.throttling;
        } in
        let f5 : (p4 >>> place_throttling J S root) ≡ (t5, returns tt) =
          first_returns p4 t4 (place_throttling J S root) f4
          ∙ (place_throttling_iff root t4 t5).1 (d.throttling, h.throttling, refl) in
        f5 ∙ ap (λ s. (record d { config_path = s }, returns tt)) (sym h.config_path)

    -- merge_json_config succeeds with `d` exactly if the root and each section that is there are
    -- objects with none but their allowed keys, each field whose key is there has the value that its
    -- reader returns, every other field is that of `c`, and the path and the worker threads stay.
    pub merge_json_config_iff :
        (root : Json) (c d : Config Level)
        → (merge_json_config J S root c ≡ (d, returns tt)) ↔ Merged root c d
    merge_json_config_iff root c d =
        (merge_json_config-Merged root c d, Merged-merge_json_config root c d)
