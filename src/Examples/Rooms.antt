-- ===== src/Examples/Rooms.antt =====
-- A room that a channel joins, a user with two channels, and connections that are accepted.
use yoyichat.Base.{◌≡◌, refl, false, none, some, [], ◌∷◌, List, get_elem?, arith}
use yoyichat.Base.Bytes.{codes}
use yoyichat.Base.Int.{pos}
use yoyichat.Base.Assoc.{int_key}
use yoyichat.Messages.{Msg}
use yoyichat.Connect.Heap.{Heap, new_channel, new_room}
use yoyichat.Connect.Listen.{Arrival, connection, is_served, accept_tcp, accept_tcp-numbers}
use yoyichat.Connect.Room
use yoyichat.Connect.Room.Members.{IsRoom, put-IsRoom}
use yoyichat.Connect.Room.Delivery.{Delivered, push-Delivered}
use yoyichat.Connect.Room.Cycle.{push_never_ends}

abbrev hello : Msg
hello = record { ver = pos 1; op = pos 3; seq = []; body = codes "hello" }

-- room 0 with the id 7, and channels of capacity 2
abbrev lobby : Heap
lobby = record { channel = λ c. new_channel 2; room = λ r. new_room (pos 7); next_room = 1 }

lobby-IsRoom : IsRoom lobby 0 []
unfolding new_room
lobby-IsRoom = record { first = refl; chain = tt; distinct = tt; count = refl; dropped = λ e. refl }

lobby_open : (lobby.room 0).drop ≡ false
unfolding new_room
lobby_open = refl

abbrev after_one : Heap
after_one = (Room.put 0 4 lobby).1

after_one-IsRoom : IsRoom after_one 0 (4 ∷ [])
after_one-IsRoom = (put-IsRoom 0 4 lobby lobby-IsRoom refl lobby_open).1

push-Delivered_example :
    (h' : Heap) × (Room.push 1 0 hello after_one ≡ some h') × Delivered hello (4 ∷ []) after_one h'
push-Delivered_example = push-Delivered hello 1 0 after_one after_one-IsRoom (omega arith)

after_one_open : (after_one.room 0).drop ≡ false
unfolding Room.put Room.link new_room
after_one_open = ground arith

push_never_ends_example : Room.push 100 0 hello (Room.put 0 4 after_one).1 ≡ none
push_never_ends_example =
    push_never_ends 0 4 hello after_one after_one-IsRoom.first after_one_open 100

-- two connections, one whose read buffer cannot be set, and one more
abbrev arrivals : List Arrival
arrivals =
    connection none none none
    ∷ connection none none none
    ∷ connection none (some (codes "closed")) none
    ∷ connection none none none
    ∷ []

-- from the last number on, the second connection gets the number 0
accept_tcp-numbers_example : get_elem? (accept_tcp arrivals 2147483646).0 1 ≡ some 0
unfolding is_served
accept_tcp-numbers_example = accept_tcp-numbers arrivals 2147483646 1 (omega arith)
