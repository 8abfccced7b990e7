-- ===== src/Protocol/RoundTrip.antt =====
-- `TimestampedPcm.encode` and `decode` (src/phono_console/audio_engine_protocol.py) are inverse
-- to each other, and what `decode` accepts is exactly what `encode` writes.
use phono_console.Base.{
  ℕ, ◌+◌, ◌*◌, ◌^◌, ◌≤◌, ◌<◌, ◌≡◌, refl, subst, inl, inr, false, some, List, [], ◌∷◌, ◌++◌, arith,
  ltb, ==_iff, Option-cases, length, take, drop, length-append, length-drop, All, drop-append,
  take-append-drop,
}
use phono_console.Base.Bytes.{
  of_signed-to_signed, IsByte, of_signed, to_signed, to_signed-of_signed,
}
use phono_console.Protocol.{
  ok, AudioSource, TimestampedPcm, header_format, header_values, header_size, magic_word,
  version_number, pack, unpack, encode, check, decode, source_code, parse_source,
}
use phono_console.Protocol.Layout.{pack-unpack, unpack-Fits, length-pack, unpack-pack}

parse_source-source_code : (s : AudioSource) → parse_source (source_code s) ≡ some s
unfolding parse_source source_code
parse_source-source_code s = ground arith

-- What a successful `encode` went through.
record Encoded (f : TimestampedPcm) (packet : List ℕ) : Type 0 where
  time : ℕ
  delay : ℕ
  header : List ℕ
  shape : f.frames * f.channels * 2 ≡ length f.pcm
  time_fits : of_signed 8 f.first_sample_time_us ≡ some time
  delay_fits : of_signed 4 f.reported_transport_delay_us ≡ some delay
  packed : pack header_format (header_values f time delay) ≡ some header
  parts : packet ≡ header ++ f.pcm

encode-Encoded : (f : TimestampedPcm) (packet : List ℕ) → encode f ≡ ok packet → Encoded f packet
unfolding encode
encode-Encoded f packet h = elim (Option-cases (of_signed 8 f.first_sample_time_us)) [
  | inl e ↦ absurd (ground arith)
  | inr (time, et) ↦ elim (Option-cases (of_signed 4 f.reported_transport_delay_us)) [
    | inl e ↦ absurd (ground arith)
    | inr (delay, ed) ↦ elim (Option-cases (pack header_format (header_values f time delay))) [
      | inl e ↦ absurd (ground arith)
      | inr (header, eh) ↦ record {
        time = time;
        delay = delay;
        header = header;
        shape = ground arith;
        time_fits = et;
        delay_fits = ed;
        packed = eh;
        parts = ground arith;
      }
    ]
  ]
]

-- The checks pass on the fields that `encode` wrote, and give the frame back.
check-header_values :
    (f : TimestampedPcm) (time delay : ℕ) (packet : List ℕ)
    → f.frames * f.channels * 2 ≡ length f.pcm
    → length packet ≡ header_size + length f.pcm
    → drop header_size packet ≡ f.pcm
    → to_signed 8 time ≡ f.first_sample_time_us
    → to_signed 4 delay ≡ f.reported_transport_delay_us
    → check (header_values f time delay) packet ≡ ok f
unfolding check header_values
check-header_values f time delay packet shape size body t d =
    ground (arith, parse_source-source_code f.source)

decode-Encoded : (f : TimestampedPcm) (packet : List ℕ) → Encoded f packet → decode packet ≡ ok f
unfolding decode
decode-Encoded f packet e =
    let size : length packet ≡ header_size + length f.pcm =
      rw e.parts (omega (arith, length-append e.header f.pcm, length-pack _ _ e.packed)) in
    let fields : unpack header_format packet ≡ header_values f e.time e.delay =
      rw e.parts (unpack-pack header_format (header_values f e.time e.delay) f.pcm e.packed) in
    let body : drop header_size packet ≡ f.pcm =
      rw e.parts (drop-append header_size e.header f.pcm (length-pack _ _ e.packed)) in
    let known =
      check-header_values f e.time e.delay packet e.shape size body
        (to_signed-of_signed 8 (2 ^ 63) _ refl e.time_fits)
        (to_signed-of_signed 4 (2 ^ 31) _ refl e.delay_fits) in
    let long : ltb (length packet) header_size ≡ false = ground (arith, size) in
    rw (long, fields) known

-- Whatever `encode` writes, `decode` reads back as the same frame.
pub decode-encode :
    (f : TimestampedPcm) (packet : List ℕ) → encode f ≡ ok packet → decode packet ≡ ok f
decode-encode f packet h = decode-Encoded f packet (encode-Encoded f packet h)

-- What the header of an accepted packet holds.
record Accepted (f : TimestampedPcm) (time delay : ℕ) (fields packet : List ℕ) : Type 0 where
  written : fields ≡ header_values f time delay
  shape : f.frames * f.channels * 2 ≡ length f.pcm
  body : f.pcm ≡ drop header_size packet
  time_value : f.first_sample_time_us ≡ to_signed 8 time
  delay_value : f.reported_transport_delay_us ≡ to_signed 4 delay

source_code_of_parse : (n : ℕ) (s : AudioSource) → parse_source n ≡ some s → n ≡ source_code s
unfolding parse_source source_code
source_code_of_parse n s h = ground arith

module _ (magic version size source reserved flags sequence time source_rate output_rate : ℕ)
    (channels frames delay epoch pcm_bytes : ℕ) (packet : List ℕ) where
  abbrev fields : List ℕ
  fields =
      magic ∷ version ∷ size ∷ source ∷ reserved ∷ flags ∷ sequence ∷ time ∷ source_rate
      ∷ output_rate ∷ channels ∷ frames ∷ delay ∷ epoch ∷ pcm_bytes ∷ []

  abbrev built : AudioSource → TimestampedPcm
  built s = record {
    source = s;
    flags = flags;
    sequence = sequence;
    first_sample_time_us = to_signed 8 time;
    source_rate_hz = source_rate;
    output_rate_hz = output_rate;
    channels = channels;
    frames = frames;
    reported_transport_delay_us = to_signed 4 delay;
    epoch = epoch;
    pcm = drop header_size packet;
  }

  check-built :
      (f : TimestampedPcm)
      → check fields packet ≡ ok f
      → (s : AudioSource) × (parse_source source ≡ some s) × (built s ≡ f)
  unfolding check
  check-built f h = ground arith

  check_constants :
      (f : TimestampedPcm)
      → check fields packet ≡ ok f
      → (magic ≡ magic_word)
        × (version ≡ version_number)
        × (size ≡ header_size)
        × (reserved ≡ 0)
        × (length packet ≡ header_size + pcm_bytes)
        × (frames * channels * 2 ≡ pcm_bytes)
  unfolding check
  check_constants f h = ground arith

  built-Accepted :
      (s : AudioSource)
      → source ≡ source_code s
      → (magic ≡ magic_word)
        × (version ≡ version_number)
        × (size ≡ header_size)
        × (reserved ≡ 0)
        × (length packet ≡ header_size + pcm_bytes)
        × (frames * channels * 2 ≡ pcm_bytes)
      → Accepted (built s) time delay fields packet
  unfolding header_values
  built-Accepted s e (m, v, z, r, l, p) =
      let body : length (drop header_size packet) ≡ pcm_bytes =
        omega (arith, length-drop header_size packet) in
      record {
        written = rw (e, m, v, z, r, body);
        shape = rw body p;
        body = refl;
        time_value = refl;
        delay_value = refl;
      }

  check-Accepted :
      (f : TimestampedPcm) → check fields packet ≡ ok f → Accepted f time delay fields packet
  check-Accepted f h =
      let (s, e, b) = check-built f h in
      subst (λ (g : TimestampedPcm). Accepted g time delay fields packet) b
        (built-Accepted s (source_code_of_parse source s e) (check_constants f h))

-- An accepted frame is packed to the packet that it came from.
encode-Accepted :
    (f : TimestampedPcm) (time delay : ℕ) (packet : List ℕ)
    → All IsByte packet
    → header_size ≤ length packet
    → time < 256 ^ 8
    → delay < 256 ^ 4
    → Accepted f time delay (unpack header_format packet) packet
    → encode f ≡ ok packet
unfolding encode
encode-Accepted f time delay packet bytes long t d a =
    let fits : of_signed 8 f.first_sample_time_us ≡ some time =
      rw a.time_value (of_signed-to_signed 8 (2 ^ 63) time refl t) in
    let fits' : of_signed 4 f.reported_transport_delay_us ≡ some delay =
      rw a.delay_value (of_signed-to_signed 4 (2 ^ 31) delay refl d) in
    let packed : pack header_format (header_values f time delay) ≡ some (take header_size packet) =
      rw (← a.written) (pack-unpack header_format packet bytes long) in
    let parts : take header_size packet ++ f.pcm ≡ packet =
      rw a.body (take-append-drop header_size packet) in
    rw ((==_iff _ _).1 a.shape, fits, fits', packed, parts)

accepted :
    (f : TimestampedPcm) (packet : List ℕ)
    → All IsByte packet
    → header_size ≤ length packet
    → check (unpack header_format packet) packet ≡ ok f
    → encode f ≡ ok packet
unfolding unpack
accepted f packet bytes long h =
    let fits = unpack-Fits header_format packet bytes long in
    encode-Accepted f _ _ packet bytes long fits.1.1.1.1.1.1.1.0 fits.1.1.1.1.1.1.1.1.1.1.1.1.0
      (check-Accepted _ _ _ _ _ _ _ _ _ _ _ _ _ _ _ packet f h)

-- A packet of bytes that `decode` accepts is exactly what `encode` writes for the decoded frame.
pub encode-decode :
    (f : TimestampedPcm) (packet : List ℕ)
    → All IsByte packet
    → decode packet ≡ ok f
    → encode f ≡ ok packet
unfolding decode
encode-decode f packet bytes h =
    let long : ltb (length packet) header_size ≡ false = ground arith in
    accepted f packet bytes (ground arith) (ground arith)
