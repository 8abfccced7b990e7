-- ===== src/Protocol/Tests.antt =====
-- Tests of src/phono_console/audio_engine_protocol.py, and both round trips at a small packet.
use phono_console.Base.{ℕ, ◌≡◌, refl, List, [], ◌∷◌, arith, All, negsuc}
use phono_console.Base.Bytes.{IsByte, le, le_value, of_signed, to_signed}
use phono_console.Protocol.{
  TimestampedPcm, bluetooth, encode, decode, ok, err, truncated, length_differs, pack, unpack,
  check, header_values, source_code, parse_source,
}
use phono_console.Protocol.RoundTrip.{decode-encode, encode-decode}

-- One stereo frame of Bluetooth audio, with a negative transport delay.
abbrev frame : TimestampedPcm
frame = record {
  source = bluetooth;
  flags = 1;
  sequence = 258;
  first_sample_time_us = negsuc 0;
  source_rate_hz = 44100;
  output_rate_hz = 48000;
  channels = 2;
  frames = 1;
  reported_transport_delay_us = negsuc 1;
  epoch = 3;
  pcm = 1 ∷ 2 ∷ 3 ∷ 4 ∷ [];
}

abbrev packet : List ℕ
packet =
    70 ∷ 65 ∷ 67 ∷ 80 ∷ 1 ∷ 0 ∷ 56 ∷ 0 ∷ 2 ∷ 0 ∷ 0 ∷ 0 ∷ 1 ∷ 0 ∷ 0 ∷ 0 ∷ 2 ∷ 1 ∷ 0 ∷ 0 ∷ 0 ∷ 0 ∷ 0
    ∷ 0 ∷ 255 ∷ 255 ∷ 255 ∷ 255 ∷ 255 ∷ 255 ∷ 255 ∷ 255 ∷ 68 ∷ 172 ∷ 0 ∷ 0 ∷ 128 ∷ 187 ∷ 0 ∷ 0 ∷ 2
    ∷ 0 ∷ 1 ∷ 0 ∷ 254 ∷ 255 ∷ 255 ∷ 255 ∷ 3 ∷ 0 ∷ 0 ∷ 0 ∷ 4 ∷ 0 ∷ 0 ∷ 0 ∷ 1 ∷ 2 ∷ 3 ∷ 4 ∷ []

encode_test : encode frame ≡ ok packet
unfolding encode pack le of_signed header_values source_code
encode_test = refl

decode_test : decode packet ≡ ok frame
unfolding decode unpack check le_value to_signed parse_source
decode_test = refl

short_packet_test : decode (1 ∷ 2 ∷ []) ≡ err truncated
unfolding decode
short_packet_test = refl

wrong_shape_test : encode (record frame { frames = 2 }) ≡ err length_differs
unfolding encode
wrong_shape_test = refl

packet-IsByte : All IsByte packet
packet-IsByte = ground arith

decode-encode_example : decode packet ≡ ok frame
decode-encode_example = decode-encode frame packet encode_test

encode-decode_example : encode frame ≡ ok packet
encode-decode_example = encode-decode frame packet packet-IsByte decode_test
