-- ===== src/Asio.antt =====
-- What the session takes from `boost::asio::async_read` and `async_write`, which are not part of the
-- repository: a read into a buffer of `n` bytes completes when `n` bytes have come, with the next `n`
-- bytes of the stream, and a write completes when all its bytes are written.
use socktestprogram.Prelude.{
  ℕ, ◌≡◌, ◌<◌, Option, none, some, List, ◌++◌, length, take, drop, leb, if◌then◌else◌, le→leb,
  lt→leb, length-append, arith, take-append, drop-append, refl,
}

pub record Reader : Type 0 where
  pub read : ℕ → List ℕ → Option (List ℕ × List ℕ)
  -- Documented: exactly the bytes that the buffer takes.
  pub read_exact : (xs ys : List ℕ) → read (length xs) (xs ++ ys) ≡ some (xs, ys)
  -- Documented: the operation goes on until the buffer is full.
  pub read_waits : (n : ℕ) (xs : List ℕ) → length xs < n → read n xs ≡ none

-- A stream that is a list, for the tests.
abbrev pub list_read : ℕ → List ℕ → Option (List ℕ × List ℕ)
list_read n xs = if leb n (length xs) then some (take n xs, drop n xs) else none

pub list_read-exact : (xs ys : List ℕ) → list_read (length xs) (xs ++ ys) ≡ some (xs, ys)
list_read-exact xs ys = rw (
  le→leb (length xs) (length (xs ++ ys)) (omega (arith, length-append xs ys)),
  take-append xs ys (length xs) refl,
  drop-append xs ys (length xs) refl,
)

pub list_read-waits : (n : ℕ) (xs : List ℕ) → length xs < n → list_read n xs ≡ none
list_read-waits n xs h = rw (lt→leb n (length xs) h)

abbrev pub list_reader : Reader
list_reader = record {
  read = list_read;
  read_exact = list_read-exact;
  read_waits = list_read-waits;
}

-- What is on the wire when a write of some bytes has completed without an error, from what was on it
-- before. It is documented for a stream on which no other write is under way meanwhile.
pub record Writer : Type 0 where
  pub write : List ℕ → List ℕ → List ℕ
  -- Documented: the operation goes on until all of the data has been written.
  pub writes_all : (wire bytes : List ℕ) → write wire bytes ≡ wire ++ bytes

abbrev pub list_writer : Writer
list_writer = record { write = λ wire bytes. wire ++ bytes; writes_all = λ wire bytes. refl }
