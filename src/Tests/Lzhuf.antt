-- ===== src/Tests/Lzhuf.antt =====
-- Inputs for src/web/lzhuf.py.
use kp4pra.Lzhuf.Compress.RoundTrip.{decompress-compress}
use kp4pra.Lzhuf.Compress.{compress}
use kp4pra.Prelude.{Bytes}
use kp4pra.Prelude.{ℕ}
use kp4pra.Prelude.{◌<◌}
use kp4pra.Lzhuf.Encode.Deleting.{Deleted, delete_node-Deleted}
use kp4pra.Lzhuf.Encode.Inserting.{Inserted, insert_node-Inserted}
use kp4pra.Lzhuf.Encode.Woven.{Woven, empty-Woven}
use kp4pra.Lzhuf.Compress.{first_dict, load_from}
use kp4pra.Lzhuf.Encode.{Dict, nil, insert_node, delete_node}
use kp4pra.Prelude.{◌≡◌, refl, some, List, [], ◌∷◌, arith}
use kp4pra.Lzhuf.Bits.{BitWriter, new_writer, flush}
use kp4pra.Lzhuf.Huffman.{Huff, start, update}
use kp4pra.Lzhuf.Huffman.Weights.{Tree}
use kp4pra.Lzhuf.Huffman.Starting.{start-Tree}
use kp4pra.Lzhuf.Huffman.Updating.{update-Tree}
use kp4pra.Lzhuf.Token.{Token, literal, copy, put_tokens}
use kp4pra.Lzhuf.Crc.{crc_shift, crc_shifts, crc16_tab, crc16_update, crc16_from, crc16}
use kp4pra.Lzhuf.Envelope.{le_bytes, le_value, envelope, text, crc_mismatch, decompress}
use kp4pra.Lzhuf.Envelope.Sealed.{IsSealed, decompress-put_tokens, decompress-changed}

-- `abab` and one more `b`.
abbrev five : List Token
five = literal 97 ∷ literal 98 ∷ copy 3 1 ∷ []

decompress-put_tokens_example :
    (h : Huff) × (w : BitWriter) × (put_tokens five start new_writer ≡ some (h, w))
    × (decompress (envelope (le_bytes 4 5) (flush w).out) ≡ text (97 ∷ 98 ∷ 97 ∷ 98 ∷ 97 ∷ []))
decompress-put_tokens_example =
    decompress-put_tokens five
      (omega arith, (omega arith, ((omega arith, omega arith, omega arith), tt))) (omega arith)

sealed : IsSealed (55 ∷ 182 ∷ 3 ∷ 0 ∷ 0 ∷ 0 ∷ 65 ∷ [])
unfolding crc16 crc16_from crc16_update crc16_tab crc_shifts crc_shift le_value
sealed = refl

decompress-changed_example : decompress (55 ∷ 182 ∷ 3 ∷ 0 ∷ 1 ∷ 0 ∷ 65 ∷ []) ≡ crc_mismatch
decompress-changed_example =
    decompress-changed (55 ∷ 182 ∷ 3 ∷ 0 ∷ []) (0 ∷ 65 ∷ []) 0 1 (omega arith, (omega arith, tt))
      (omega arith) (omega arith) (omega arith) (omega arith) sealed

update-Tree_example : Tree (update 65 start) 315
update-Tree_example = update-Tree start 314 65 start-Tree (omega arith) (omega arith)

first_dict-Woven : (b : ℕ) → Woven (first_dict []) (λ x. 0) b
unfolding first_dict load_from
first_dict-Woven b = empty-Woven (first_dict []) b (λ x l. ground arith) (λ x l. ground arith)

first_place : ((first_dict []).dad 1000 ≡ nil) × ((first_dict []).text_buf 1000 < 256)
unfolding first_dict load_from
first_place = (refl, omega arith)

insert_node-Inserted_example :
    (e : Dict) × (insert_node 1 1000 (first_dict []) ≡ some e) × Inserted (first_dict []) 0 1000 e
insert_node-Inserted_example =
    insert_node-Inserted 1 1000 (first_dict []) (λ x. 0) 0 (first_dict-Woven 0) (omega arith)
      first_place.0 first_place.1 (omega arith)

one_place :
    (e : Dict) × (insert_node 1 1000 (first_dict []) ≡ some e) × Inserted (first_dict []) 0 1000 e
one_place =
    insert_node-Inserted 1 1000 (first_dict []) (λ x. 0) 0 (first_dict-Woven 0) (omega arith)
      first_place.0 first_place.1 (omega arith)

delete_node-Deleted_example :
    (e : Dict) × (delete_node 2 1000 one_place.0 ≡ some e) × Deleted one_place.0 1 1000 e
delete_node-Deleted_example =
    delete_node-Deleted one_place.2.woven 1000 (omega arith) 2 (omega arith)

decompress-compress_example :
    (blob : Bytes) × (compress (97 ∷ 98 ∷ 97 ∷ 98 ∷ 97 ∷ []) ≡ some blob)
    × (decompress blob ≡ text (97 ∷ 98 ∷ 97 ∷ 98 ∷ 97 ∷ []))
decompress-compress_example =
    decompress-compress (97 ∷ 98 ∷ 97 ∷ 98 ∷ 97 ∷ [])
      (omega arith, (omega arith, (omega arith, (omega arith, (omega arith, tt))))) (omega arith)
