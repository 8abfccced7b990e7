-- ===== src/Protocol.antt =====
-- src/phono_console/audio_engine_protocol.py: the framing of timestamped PCM packets.
--
-- A byte is a natural below 256. `struct.Struct("<IHHHHIQqIIHHiII")` is the list of its field
-- sizes: the two signed fields (q and i) go through two's complement. Fields that the source
-- writes unsigned are naturals. `IntFlag` keeps unknown bits (Python 3.12), so `FrameFlags(flags)`
-- never raises and flags are a natural.
pub mod Layout
pub mod RoundTrip
pub mod Tests
use phono_console.Base.{
  ℕ, ◌+◌, ◌*◌, ◌^◌, ◌&&◌, not, Option, none, some, List, [], ◌∷◌, ◌++◌, ltb, ◌==◌, if◌then◌else◌, ℤ,
  length, take, drop,
}
use phono_console.Base.Bytes.{le, le_value, of_signed, to_signed}

abbrev pub magic_word : ℕ
magic_word = 0x50434146

abbrev pub version_number : ℕ
version_number = 1

abbrev pub header_size : ℕ
header_size = 56

-- "<IHHHHIQqIIHHiII"
abbrev pub header_format : List ℕ
header_format = 4 ∷ 2 ∷ 2 ∷ 2 ∷ 2 ∷ 4 ∷ 8 ∷ 8 ∷ 4 ∷ 4 ∷ 2 ∷ 2 ∷ 4 ∷ 4 ∷ 4 ∷ []

pub data ProtocolError : Type 0 where
  length_differs truncated bad_magic reserved_nonzero length_mismatch shape_mismatch : ProtocolError
  unsupported : ℕ → ℕ → ProtocolError
  unknown_source : ℕ → ProtocolError
  -- `struct.error`: a field does not fit its width.
  out_of_range : ProtocolError

pub data Result (A : Type 0) : Type 0 where
  ok : A → Result A
  err : ProtocolError → Result A

pub data AudioSource : Type 0 where
  phono bluetooth ma_return : AudioSource

unfoldable pub source_code : AudioSource → ℕ
source_code phono = 1
source_code bluetooth = 2
source_code ma_return = 3

-- `AudioSource(source)`
unfoldable pub parse_source : ℕ → Option AudioSource
parse_source n =
    if n == 1
    then some phono
    else (if n == 2 then some bluetooth else (if n == 3 then some ma_return else none))

pub record TimestampedPcm : Type 0 where
  pub source : AudioSource
  pub flags : ℕ
  pub sequence : ℕ
  pub first_sample_time_us : ℤ
  pub source_rate_hz : ℕ
  pub output_rate_hz : ℕ
  pub channels : ℕ
  pub frames : ℕ
  pub reported_transport_delay_us : ℤ
  pub epoch : ℕ
  pub pcm : List ℕ

abbrev prepend : List ℕ → Option (List ℕ) → Option (List ℕ)
prepend xs none = none
prepend xs (some ys) = some (xs ++ ys)

-- `HEADER.pack`: every value in its width, or `struct.error`.
pub pack : List ℕ → List ℕ → Option (List ℕ)
pack [] [] = some []
pack [] (v ∷ vs) = none
pack (n ∷ ns) [] = none
pack (n ∷ ns) (v ∷ vs) =
    let rest = pack ns vs in if ltb v (256 ^ n) then prepend (le n v) rest else none

-- `HEADER.unpack_from`
pub unpack : List ℕ → List ℕ → List ℕ
unpack [] packet = []
unpack (n ∷ ns) packet = le_value (take n packet) ∷ unpack ns (drop n packet)

-- The arguments that `encode` gives to `pack`, with the signed ones as bit patterns.
unfoldable pub header_values : TimestampedPcm → ℕ → ℕ → List ℕ
header_values f time delay =
    magic_word
    ∷ version_number
    ∷ header_size
    ∷ source_code f.source
    ∷ 0
    ∷ f.flags
    ∷ f.sequence
    ∷ time
    ∷ f.source_rate_hz
    ∷ f.output_rate_hz
    ∷ f.channels
    ∷ f.frames
    ∷ delay
    ∷ f.epoch
    ∷ length f.pcm
    ∷ []

abbrev with_pcm : List ℕ → Option (List ℕ) → Result (List ℕ)
with_pcm pcm none = err out_of_range
with_pcm pcm (some header) = ok (header ++ pcm)

abbrev pack_signed : TimestampedPcm → Option ℕ → Option ℕ → Option (List ℕ)
pack_signed f (some time) (some delay) = pack header_format (header_values f time delay)
pack_signed f _ _ = none

unfoldable pub encode : TimestampedPcm → Result (List ℕ)
encode f =
    if f.frames * f.channels * 2 == length f.pcm
    then with_pcm f.pcm (
        pack_signed f (of_signed 8 f.first_sample_time_us)
          (of_signed 4 f.reported_transport_delay_us))
    else err length_differs

abbrev with_source : ℕ → Option AudioSource → (AudioSource → TimestampedPcm) → Result TimestampedPcm
with_source n none build = err (unknown_source n)
with_source n (some s) build = ok (build s)

-- The checks of `decode`, in their order, on the fifteen fields of the header.
pub check : List ℕ → List ℕ → Result TimestampedPcm
check
      (magic ∷ version ∷ size ∷ source ∷ reserved ∷ flags ∷ sequence ∷ time ∷ source_rate
        ∷ output_rate ∷ channels ∷ frames ∷ delay ∷ epoch ∷ pcm_bytes ∷ [])
      packet =
    if not (magic == magic_word)
    then err bad_magic
    else (if not ((version == version_number) && (size == header_size))
        then err (unsupported version size)
        else (if not (reserved == 0)
            then err reserved_nonzero
            else (if not (length packet == header_size + pcm_bytes)
                then err length_mismatch
                else (if not (frames * channels * 2 == pcm_bytes)
                    then err shape_mismatch
                    else with_source source (parse_source source) (λ s. record {
                      source = s;
                      flags = flags;
                      sequence = sequence;
                      first_sample_time_us = to_signed 8 time;
                      source_rate_hz = source_rate;
                      output_rate_hz = output_rate;
                      channels = channels;
                      frames = frames;
                      reported_transport_delay_us = to_signed 4 delay;
                      epoch = epoch;
                      pcm = drop header_size packet;
                    })))))
-- `unpack` gives exactly fifteen fields, so this clause is not reached.
check _ packet = err truncated

unfoldable pub decode : List ℕ → Result TimestampedPcm
decode packet =
    if ltb (length packet) header_size
    then err truncated
    else check (unpack header_format packet) packet
