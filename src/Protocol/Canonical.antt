-- ===== src/Protocol/Canonical.antt =====
-- The decoders of the messages in internal/protocol/protocol.go against the encoders: from bytes.
use utaki_tick_data_platform.Common.{
  ℕ, zero, suc, ◌≤◌, ◌≡◌, refl, [], ◌∷◌, Bytes, length, All, IsByte, All-append_right, ◌++◌,
  append-nil, append_assoc, ok, bytes_eq→eq, arith, true, not, ◌||◌, ◌==◌, ltb, sym, ap, ◌∙◌, subst,
}
use utaki_tick_data_platform.Protocol.{
  HelloV1, ResumeV1, BatchFrameV1, AckV1, ErrorV1, source_schema_mt5, message_error, max_records,
  protocol_version,
}
use utaki_tick_data_platform.Protocol.Buffer.{guard-eq-ok, pure_lem, >>=-eq-ok, >>=_ok}
use utaki_tick_data_platform.Protocol.Ranges.{
  HelloInRange, ResumeInRange, TickInRange, BatchInRange, AckInRange, ErrorInRange,
}
use utaki_tick_data_platform.Protocol.Recovery.{
  Recovers, field, finish, read_guard, written_guard, pure-eq-ok, Recovers-u8, Recovers-u16,
  Recovers-u32, Recovers-u64, Recovers-i32, Recovers-i64, Recovers-hash, Recovers-string,
}
use utaki_tick_data_platform.Protocol.Encode.{
  encode_hello, encode_resume, encode_record, encode_records, encode_batch, encode_ack,
  encode_error, counts_match, failure_is_empty,
}
use utaki_tick_data_platform.Protocol.Decode.{
  decode_hello, decode_resume, decode_record, decode_records, decode_batch, decode_ack,
  decode_error,
}

Recovers-record : Recovers decode_record encode_record TickInRange
unfolding decode_record encode_record
Recovers-record =
    field _ _ _ (λ v. v.time) Recovers-i64
      λ time p1.
        field _ _ _ (λ v. v.bid_bits) Recovers-u64
          λ bid p2.
            field _ _ _ (λ v. v.ask_bits) Recovers-u64
              λ ask p3.
                field _ _ _ (λ v. v.last_bits) Recovers-u64
                  λ last p4.
                    field _ _ _ (λ v. v.volume) Recovers-u64
                      λ volume p5.
                        field _ _ _ (λ v. v.time_msc) Recovers-i64
                          λ time_msc p6.
                            field _ _ _ (λ v. v.flags) Recovers-u32
                              λ flags p7.
                                field _ _ _ (λ v. v.volume_real_bits) Recovers-u64
                                  λ real p8.
                                    finish _ _ (λ v. v.capture_sequence) Recovers-u64
                                      λ capture s v t p9 made.
                                        let (value, left) = pure-eq-ok _ s v t made in
                                        (
                                          ap (λ r. r.capture_sequence) value,
                                          rw value (assumption refl),
                                          left,
                                        )

-- A guard on an upper bound.
not_above : (b n : ℕ) → not (ltb b n) ≡ true → n ≤ b
not_above b n h = ground arith

Recovers-records :
    (n : ℕ)
    → Recovers (decode_records n) encode_records (λ vs. (length vs ≡ n) × All TickInRange vs)
unfolding decode_records encode_records
Recovers-records zero = record {
  run = λ bs v rest bytes h.
      let (none, left) = pure-eq-ok [] bs v rest h in
      (rw none (refl, tt), ([], left, λ buffer. rw (none, append-nil) (pure_lem tt buffer)));
}
Recovers-records (suc n) = record {
  run = λ bs v rest bytes h.
      let (r, mid, read, more) = >>=-eq-ok decode_record _ bs rest v h in
      let (rs, end, reads, made) = >>=-eq-ok (decode_records n) _ mid rest v more in
      let (p, (out, e, writes)) = Recovers-record.run bs r mid bytes read in
      let (q, (out', e', writes')) =
        (Recovers-records n).run mid rs end
          (All-append_right IsByte out mid (subst (All IsByte) e bytes)) reads in
      let (value, left) = pure-eq-ok (r ∷ rs) end v rest made in
      (
        rw value (ap suc q.0, (p, q.1)),
        (
          out ++ out',
          e
              ∙ ap (λ (x : Bytes). out ++ x) (e' ∙ ap (λ (x : Bytes). out' ++ x) left)
              ∙ sym (append_assoc out out' rest),
          rw value (λ buffer.
              >>=_ok (encode_record r) (λ _. encode_records rs) buffer (buffer ++ out) tt
                (writes buffer)
              ∙ writes' (buffer ++ out)
              ∙ ap (λ (x : Bytes). ok (tt, x)) (append_assoc buffer out out')),
        ),
      );
}

abbrev pub HelloChecked : HelloV1 → Type 0
HelloChecked v = HelloInRange v × ((v.acquisition_mode == 1 || v.acquisition_mode == 2) ≡ true)

pub Recovers-hello : Recovers decode_hello encode_hello HelloChecked
unfolding decode_hello encode_hello
Recovers-hello =
    field _ _ _ (λ v. v.producer_instance_id) Recovers-string
      λ producer_instance_id p0.
        field _ _ _ (λ v. v.producer_session_id) Recovers-string
          λ producer_session_id p1.
            field _ _ _ (λ v. v.producer_build_id) Recovers-string
              λ producer_build_id p2.
                field _ _ _ (λ v. v.mql_compiler_build) Recovers-string
                  λ mql_compiler_build p3.
                    field _ _ _ (λ v. v.terminal_build) Recovers-string
                      λ terminal_build p4.
                        field _ _ _ (λ v. v.os_contract) Recovers-string
                          λ os_contract p5.
                            field _ _ _ (λ v. v.clock_api_id) Recovers-string
                              λ clock_api_id p6.
                                field _ _ _ (λ v. v.provider_id) Recovers-string
                                  λ provider_id p7.
                                    field _ _ _ (λ v. v.stable_feed_id) Recovers-string
                                      λ stable_feed_id p8.
                                        field _ _ _ (λ v. v.broker_server_fingerprint)
                                          Recovers-string
                                          λ broker_server_fingerprint p9.
                                            field _ _ _ (λ v. v.exact_source_symbol) Recovers-string
                                              λ exact_source_symbol p10.
                                                field _ _ _ (λ v. v.source_schema_id)
                                                  Recovers-string
                                                  λ source_schema_id p11.
                                                    written_guard
                                                      (λ v.
                                                        v.acquisition_mode == 1
                                                        || v.acquisition_mode == 2)
                                                      _ (λ v q. assumption)
                                                      (field _ _ _ (λ v. v.acquisition_mode)
                                                        Recovers-u8
                                                        λ acquisition_mode p12.
                                                          read_guard _ _ λ mode.
                                                            field _ _ _ (λ v. v.initial_from_msc)
                                                            Recovers-i64
                                                            λ initial_from_msc p13.
                                                            finish _ _ (λ v. v.capability_flags)
                                                            Recovers-u32
                                                            λ capability_flags s v t p14 made.
                                                            let (value, left) =
                                                            pure-eq-ok _ s v t made in
                                                            (
                                                            ap (λ r. r.capability_flags) value,
                                                            rw value (assumption refl),
                                                            left,
                                                            ))

abbrev pub ResumeChecked : ResumeV1 → Type 0
ResumeChecked v = ResumeInRange v × ((v.accepted_protocol_version == protocol_version) ≡ true)

pub Recovers-resume : Recovers decode_resume encode_resume ResumeChecked
unfolding decode_resume encode_resume
Recovers-resume =
    written_guard (λ v. v.accepted_protocol_version == protocol_version) _ (λ v q. q.1)
      (field _ _ _ (λ v. v.accepted_protocol_version) Recovers-u16
        λ accepted_protocol_version p0. read_guard _ _ λ version.
          field _ _ _ (λ v. v.gateway_instance_id) Recovers-string
            λ gateway_instance_id p1.
              field _ _ _ (λ v. v.session_lease_id) Recovers-string
                λ session_lease_id p2.
                  field _ _ _ (λ v. v.committed_cursor_msc) Recovers-i64
                    λ committed_cursor_msc p3.
                      field _ _ _ (λ v. v.committed_boundary_digest) Recovers-hash
                        λ committed_boundary_digest p4.
                          field _ _ _ (λ v. v.last_durable_batch_sequence) Recovers-u64
                            λ last_durable_batch_sequence p5.
                              field _ _ _ (λ v. v.last_durable_batch_hash) Recovers-hash
                                λ last_durable_batch_hash p6.
                                  field _ _ _ (λ v. v.next_from_msc) Recovers-i64
                                    λ next_from_msc p7.
                                      field _ _ _ (λ v. v.next_requested_count) Recovers-u32
                                        λ next_requested_count p8.
                                          field _ _ _ (λ v. v.maximum_frame_bytes) Recovers-u32
                                            λ maximum_frame_bytes p9.
                                              field _ _ _ (λ v. v.maximum_records) Recovers-u32
                                                λ maximum_records p10.
                                                  finish _ _ (λ v. v.heartbeat_idle_timeout_ms)
                                                    Recovers-u32
                                                    λ heartbeat_idle_timeout_ms s v t p11 made.
                                                      let (value, left) = pure-eq-ok _ s v t made in
                                                      (
                                                        ap (λ r. r.heartbeat_idle_timeout_ms) value,
                                                        rw value (assumption refl),
                                                        left,
                                                      ))

abbrev pub AckChecked : AckV1 → Type 0
AckChecked v = AckInRange v × (not (ltb v.status 1 || ltb 9 v.status) ≡ true)

pub Recovers-ack : Recovers decode_ack encode_ack AckChecked
unfolding decode_ack encode_ack
Recovers-ack =
    written_guard (λ v. not (ltb v.status 1 || ltb 9 v.status)) _ (λ v q. q.1)
      (field _ _ _ (λ v. v.producer_session_id) Recovers-string
        λ producer_session_id p0.
          field _ _ _ (λ v. v.batch_sequence) Recovers-u64
            λ batch_sequence p1.
              field _ _ _ (λ v. v.gateway_batch_sha256) Recovers-hash
                λ gateway_batch_sha256 p2.
                  field _ _ _ (λ v. v.gateway_ingest_sequence) Recovers-u64
                    λ gateway_ingest_sequence p3.
                      field _ _ _ (λ v. v.status) Recovers-u8
                        λ status p4. read_guard _ _ λ known.
                          field _ _ _ (λ v. v.committed_cursor_msc) Recovers-i64
                            λ committed_cursor_msc p5.
                              field _ _ _ (λ v. v.committed_boundary_digest) Recovers-hash
                                λ committed_boundary_digest p6.
                                  field _ _ _ (λ v. v.next_from_msc) Recovers-i64
                                    λ next_from_msc p7.
                                      field _ _ _ (λ v. v.next_requested_count) Recovers-u32
                                        λ next_requested_count p8.
                                          finish _ _ (λ v. v.retry_after_ms) Recovers-u32
                                            λ retry_after_ms s v t p9 made.
                                              let (value, left) = pure-eq-ok _ s v t made in
                                              (
                                                ap (λ r. r.retry_after_ms) value,
                                                rw value (assumption refl),
                                                left,
                                              ))

abbrev pub ErrorChecked : ErrorV1 → Type 0
ErrorChecked v =
    ErrorInRange v
    × (v.related_message_type ≤ message_error)
    × (not (ltb v.code 1 || ltb 10 v.code) ≡ true)
    × (not (ltb 1 v.retryable) ≡ true)

pub Recovers-error : Recovers decode_error encode_error ErrorChecked
unfolding decode_error encode_error
Recovers-error =
    written_guard (λ v. not (ltb v.code 1 || ltb 10 v.code)) _ (λ v q. q.2)
      (written_guard (λ v. not (ltb 1 v.retryable)) _ (λ v q. q.3)
        (field _ _ _ (λ v. v.code) Recovers-u16
          λ code p0. read_guard _ _ λ coded.
            field _ _ _ (λ v. v.retryable) Recovers-u8
              λ retryable p1. read_guard _ _ λ flag.
                field _ _ _ (λ v. v.related_message_type) Recovers-u16
                  λ related_message_type p2. read_guard _ _ λ typed.
                    field _ _ _ (λ v. v.related_batch_sequence) Recovers-u64
                      λ related_batch_sequence p3.
                        finish _ _ (λ v. v.message) Recovers-string
                          λ message s v t p4 made.
                            let (value, left) = pure-eq-ok _ s v t made in
                            (
                              ap (λ r. r.message) value,
                              rw value (assumption (refl, not_above _ _ typed)),
                              left,
                            )))

abbrev pub BatchChecked : BatchFrameV1 → Type 0
BatchChecked v =
    BatchInRange v
    × (v.source_schema_id ≡ source_schema_mt5)
    × (not (ltb max_records (length v.records)) ≡ true)
    × (counts_match v.returned_count (length v.records) ≡ true)
    × (failure_is_empty v.returned_count (length v.records) ≡ true)

pub Recovers-batch : Recovers decode_batch encode_batch BatchChecked
unfolding decode_batch encode_batch
Recovers-batch =
    written_guard (λ v. not (ltb max_records (length v.records))) _ (λ v q. q.2)
      (written_guard (λ v. counts_match v.returned_count (length v.records)) _ (λ v q. q.3)
        (written_guard (λ v. failure_is_empty v.returned_count (length v.records)) _ (λ v q. q.4)
          (field _ _ _ (λ v. v.session_lease_id) Recovers-string
            λ session_lease_id p0.
              field _ _ _ (λ v. v.producer_session_id) Recovers-string
                λ producer_session_id p1.
                  field _ _ _ (λ v. v.batch_sequence) Recovers-u64
                    λ batch_sequence p2.
                      field _ _ _ (λ v. v.requested_from_msc) Recovers-i64
                        λ requested_from_msc p3.
                          field _ _ _ (λ v. v.requested_count) Recovers-u32
                            λ requested_count p4.
                              field _ _ _ (λ v. v.fetch_wall_start_s) Recovers-i64
                                λ fetch_wall_start_s p5.
                                  field _ _ _ (λ v. v.fetch_wall_end_s) Recovers-i64
                                    λ fetch_wall_end_s p6.
                                      field _ _ _ (λ v. v.fetch_monotonic_start_us) Recovers-u64
                                        λ fetch_monotonic_start_us p7.
                                          field _ _ _ (λ v. v.fetch_monotonic_end_us) Recovers-u64
                                            λ fetch_monotonic_end_us p8.
                                              field _ _ _ (λ v. v.returned_count) Recovers-i32
                                                λ returned_count p9.
                                                  field _ _ _ (λ v. v.copy_ticks_error) Recovers-i32
                                                    λ copy_ticks_error p10.
                                                      field _ _ _ (λ v. v.source_status_flags)
                                                        Recovers-u32
                                                        λ source_status_flags p11.
                                                          field _ _ _ (λ v. v.source_schema_id)
                                                            Recovers-string
                                                            λ source_schema_id p12.
                                                            read_guard _ _ λ schema.
                                                            field _ _ _ (λ v. length v.records)
                                                            Recovers-u32
                                                            λ count p13. read_guard _ _ λ few.
                                                            finish _ _ (λ v. v.records)
                                                            (Recovers-records count)
                                                            λ records s v t p14 checked.
                                                            let (counted, checked') =
                                                            guard-eq-ok _ _ _ s t v checked in
                                                            let (empty, made) =
                                                            guard-eq-ok _ _ _ s t v checked' in
                                                            let (value, left) =
                                                            pure-eq-ok _ s v t made in
                                                            let (len, ranges) = p14 in
                                                            let few' : not
                                                            (ltb max_records (length records))
                                                            ≡ true =
                                                            rw len few in
                                                            let counted' : counts_match
                                                            returned_count (length records)
                                                            ≡ true =
                                                            rw len counted in
                                                            let empty' : failure_is_empty
                                                            returned_count (length records)
                                                            ≡ true =
                                                            rw len empty in
                                                            (
                                                            ap (λ r. r.records) value,
                                                            rw value (
                                                            assumption (
                                                            refl,
                                                            bytes_eq→eq _ _ schema,
                                                            few',
                                                            counted',
                                                            empty',
                                                            )),
                                                            left,
                                                            ))))
