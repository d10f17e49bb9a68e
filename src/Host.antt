-- ===== src/Host.antt =====
-- What the program takes from the host: the byte order conversions of
-- `boost::asio::detail::socket_ops`, which are not part of the repository. The program is built
-- for little-endian hosts (x86 and x64), where these functions reverse the bytes of a word.
use socktestprogram.Prelude.{ℕ, ◌+◌, ◌*◌, ◌<◌, ◌≡◌, arith, from_bytes, byte0, byte1, byte2, byte3}

pub record ByteOrder : Type 0 where
  pub host_to_network_long : ℕ → ℕ
  pub network_to_host_long : ℕ → ℕ
  pub network_to_host_short : ℕ → ℕ
  -- Documented: conversion between the host's order and the network's, which is big-endian.
  pub host_to_network_long_reverses :
      (a b c d : ℕ)
      → a < 256
      → b < 256
      → c < 256
      → d < 256
      → host_to_network_long (from_bytes a b c d) ≡ from_bytes d c b a
  pub network_to_host_long_reverses :
      (a b c d : ℕ)
      → a < 256
      → b < 256
      → c < 256
      → d < 256
      → network_to_host_long (from_bytes a b c d) ≡ from_bytes d c b a
  pub network_to_host_short_reverses :
      (a b : ℕ) → a < 256 → b < 256 → network_to_host_short (a + 256 * b) ≡ b + 256 * a

-- The conversions of an x86 host, for the tests.
abbrev pub reverse_word : ℕ → ℕ
reverse_word w = from_bytes (byte3 w) (byte2 w) (byte1 w) (byte0 w)

abbrev pub reverse_half : ℕ → ℕ
reverse_half w = byte1 w + 256 * byte0 w

pub reverse_word_lem :
    (a b c d : ℕ)
    → a < 256
    → b < 256
    → c < 256
    → d < 256
    → reverse_word (from_bytes a b c d) ≡ from_bytes d c b a
reverse_word_lem a b c d ha hb hc hd = omega arith

pub reverse_half_lem : (a b : ℕ) → a < 256 → b < 256 → reverse_half (a + 256 * b) ≡ b + 256 * a
reverse_half_lem a b ha hb = omega arith

abbrev pub x86 : ByteOrder
x86 = record {
  host_to_network_long = reverse_word;
  network_to_host_long = reverse_word;
  network_to_host_short = reverse_half;
  host_to_network_long_reverses = reverse_word_lem;
  network_to_host_long_reverses = reverse_word_lem;
  network_to_host_short_reverses = reverse_half_lem;
}
