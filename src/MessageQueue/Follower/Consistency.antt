-- ===== src/MessageQueue/Follower/Consistency.antt =====
-- What a follower (message_queue/follower.py) answers after a write that the producer
-- (message_queue/producer.py) has acknowledged.
