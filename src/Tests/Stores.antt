-- ===== src/Tests/Stores.antt =====
-- A store that meets the laws: the id of a chunk is its data, and a stream is cut after two bytes.
use spongix.Base.{
  Bytes, [], ◌∷◌, Option, none, some, true, ◌≡◌, refl, sym, ap, ◌∙◌, take, drop, take-append-drop,
  length, append-nil, if◌then◌else◌, arith, subst,
}
use mathlib.Core.Option.{some-injective}
use spongix.Strings.Parts.{equal_iff, equal_self}
use spongix.Assoc.{Assoc, lookup, insert, lookup-insert}
use spongix.Desync.{Desync, Index, Pieces, Laws}

abbrev pub cut : Bytes → Index
cut bytes = record { chunks = take 2 bytes ∷ drop 2 bytes ∷ []; index_length = length bytes }

abbrev pub toy_store : Desync
toy_store = record {
  World = Assoc Index;
  Chunker = Bytes;
  Chunk = Bytes;
  new_chunker = λ i. if i.failed then none else some i.content;
  chunk_stream = λ ch w. (w, some (cut ch));
  store_index = λ name idx w. (insert name idx w, true);
  get_index = lookup;
  get_chunk = λ id w. some id;
  chunk_data = some;
}

pub cut-Pieces : (w : Assoc Index) (bytes : Bytes) → Pieces toy_store w (cut bytes).chunks bytes
cut-Pieces w bytes = (
  take 2 bytes,
  drop 2 bytes,
  sym (take-append-drop 2 bytes),
  (
    (take 2 bytes, refl, refl),
    (drop 2 bytes, [], sym (append-nil (drop 2 bytes)), ((drop 2 bytes, refl, refl), refl)),
  ),
)

stream_cuts :
    (input ch : Bytes) (w w' : Assoc Index) (idx : Index)
    → input ≡ ch
    → ◌≡◌ {A = Assoc Index × Option Index} (w, some (cut ch)) (w', some idx)
    → Pieces toy_store w' idx.chunks input
stream_cuts input ch w w' idx same e =
    subst (λ i. Pieces toy_store w' i.chunks input) (some-injective (cut ch) idx (ap (λ p. p.1) e))
      (subst (λ b. Pieces toy_store w' (cut b).chunks input) same (cut-Pieces w' input))

pub toy_store-Laws : Laws toy_store
toy_store-Laws = record {
  cuts = λ input ch w w' idx made e. stream_cuts input ch w w' idx (some-injective input ch made) e;
  adds = λ ch w id piece has. has;
  keeps_index = λ ch w name. refl;
  stores = λ name idx w w' e.
      subst (λ m. lookup name m ≡ some idx) (ap (λ p. p.0) e)
        (lookup-insert name name idx w ∙ rw (equal_self name) refl);
  stores_there =
      λ name other idx w ne. ground (arith, lookup-insert name other idx w, equal_iff name other);
  keeps_chunks = λ name idx w id. refl;
}
