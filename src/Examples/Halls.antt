-- ===== src/Examples/Halls.antt =====
-- Two users who come to a room of a bucket.
use yoyichat.Base.{ℕ, refl, false, true, none, ◌≡◌, some, List, [], ◌∷◌}
use yoyichat.Base.Int.{pos}
use yoyichat.Connect.Heap.{
  Heap, new_channel, new_room, set_user, set_room, set_next, set_prev, set_prev?, put_room,
}
use yoyichat.Connect.Bucket
use yoyichat.Connect.Bucket.{
  Bucket, BucketOptions, channel, room, find_room, register, new_bucket, push_room,
}
use yoyichat.Connect.Hall.{leave, Implements}
use yoyichat.Connect.Hall.Newer.{delete_channel-newer}
use yoyichat.Connect.Races.{put_maps, put_found, put_maps-delete_channel}
use yoyichat.Connect.Room
use yoyichat.Connect.Room.{link}
use yoyichat.Connect.Room.Chain.{has}
use yoyichat.Connect.Room.Members.{IsRoom}
use yoyichat.Base.Bytes.{codes}
use yoyichat.Base.Assoc.{lookup, insert, int_key}
use yoyichat.Connect.Hall.Leave.{delete_channel-Implements}
use yoyichat.Connect.Hall.Steps.{
  World, accept, Event, came, hall_after, Run, opens, comes, Run-Implements,
}

abbrev options : BucketOptions
options = record { channel_size = 4; room_size = 4; routine_amount = 1; routine_size = 4 }

-- what stands on the heap before the start is of no use
abbrev dark : Heap
dark = record { channel = λ c. new_channel 2; room = λ r. new_room (pos 0); next_room = 0 }

abbrev opened : World
opened = record { bucket = new_bucket options; heap = dark; next_channel = 0 }

abbrev two : World
two = accept (pos 6) (pos 7) 2 (accept (pos 5) (pos 7) 2 opened)

abbrev comings : List Event
comings = came (pos 6) (pos 7) 1 ∷ came (pos 5) (pos 7) 0 ∷ []

two-Run : Run options comings two
unfolding accept
two-Run = comes (pos 6) (pos 7) 2 (comes (pos 5) (pos 7) 2 (opens dark))

delete_channel-Implements_example :
    (left : Bucket × Heap) × (Bucket.delete_channel two.bucket 0 two.heap ≡ some left)
    × Implements two.next_channel left.0 left.1
        (leave (two.heap.channel 0).user_id (hall_after comings))
delete_channel-Implements_example =
    delete_channel-Implements two.next_channel two.bucket two.heap (hall_after comings) 0
      (Run-Implements options comings two two-Run)

abbrev one : World
one = accept (pos 5) (pos 7) 2 opened

-- user 5 comes to room 7 again, with channel 1
abbrev twice : World
twice = accept (pos 5) (pos 7) 2 one

abbrev returns : List Event
returns = came (pos 5) (pos 7) 1 ∷ came (pos 5) (pos 7) 0 ∷ []

twice-Run : Run options returns twice
unfolding accept
twice-Run = comes (pos 5) (pos 7) 2 (comes (pos 5) (pos 7) 2 (opens dark))

holds_newer : (hall_after returns).users (twice.heap.channel 0).user_id ≡ some 1
unfolding accept Bucket.put new_bucket find_room register Room.put link set_user set_room set_next
    set_prev set_prev? put_room lookup insert new_room new_channel
holds_newer = refl

delete_channel-newer_example :
    (left : Bucket × Heap) × (Bucket.delete_channel twice.bucket 0 twice.heap ≡ some left)
    × (channel left.0 (twice.heap.channel 0).user_id ≡ none)
    × Implements twice.next_channel left.0 left.1
        (leave (twice.heap.channel 0).user_id (hall_after returns))
    × ((leave (twice.heap.channel 0).user_id (hall_after returns)).home 1 ≡ none)
    × (r : ℕ) × (xs : List ℕ) × (room left.0 (pos 7) ≡ some r)
    × IsRoom left.1 r xs
    × (has 0 xs ≡ true)
    × (has 1 xs ≡ false)
delete_channel-newer_example =
    delete_channel-newer twice.next_channel twice.bucket twice.heap (hall_after returns) (pos 7) 0 1
      (Run-Implements options returns twice twice-Run) holds_newer refl refl

-- In `one`, room 0 has the channel 0 of user 5 alone.
one_room : lookup (pos 7) one.bucket.rooms ≡ some 0
unfolding accept Bucket.put new_bucket find_room register Room.put link set_user set_room set_next
    set_prev set_prev? put_room lookup insert new_room new_channel
one_room = refl

one_id : (one.heap.room 0).id ≡ pos 7
unfolding accept Bucket.put new_bucket find_room register Room.put link set_user set_room set_next
    set_prev set_prev? put_room lookup insert new_room new_channel
one_id = refl

one_count : (one.heap.room 0).online_count ≡ pos 1
unfolding accept Bucket.put new_bucket find_room register Room.put link set_user set_room set_next
    set_prev set_prev? put_room lookup insert new_room new_channel
one_count = refl

one_mapped : lookup (pos 5) one.bucket.chs ≡ some 0
unfolding accept Bucket.put new_bucket find_room register Room.put link set_user set_room set_next
    set_prev set_prev? put_room lookup insert new_room new_channel
one_mapped = refl

one_user : (one.heap.channel 0).user_id ≡ pos 5
unfolding accept Bucket.put new_bucket find_room register Room.put link set_user set_room set_next
    set_prev set_prev? put_room lookup insert new_room new_channel
one_user = refl

one_seat : (one.heap.channel 0).room ≡ some 0
unfolding accept Bucket.put new_bucket find_room register Room.put link set_user set_room set_next
    set_prev set_prev? put_room lookup insert new_room new_channel
one_seat = refl

-- user 6 comes to room 7 with channel 1 while user 5 leaves it
put_maps-delete_channel_example :
    (left : Bucket × Heap) × (Bucket.delete_channel
        (put_maps one.bucket (pos 6) (pos 7) 1 one.heap).1
        0
        (put_maps one.bucket (pos 6) (pos 7) 1 one.heap).2
      ≡ some left)
    × ((put_found (put_maps one.bucket (pos 6) (pos 7) 1 one.heap).0 1 left.1).0
        ≡ some (codes "room drop"))
    × (channel left.0 (pos 6) ≡ some 1)
    × (room left.0 (pos 7) ≡ none)
put_maps-delete_channel_example =
    put_maps-delete_channel one.bucket (pos 6) (pos 5) (pos 7) 1 0 0 one.heap refl refl refl
      one_room one_id one_count one_mapped one_user one_seat
