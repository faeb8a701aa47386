-- ===== src/Worker.antt =====
-- worker/main.py: the consumer loop over the stream, the two tables and the alert channel.
pub mod World
pub mod Nogroup
pub mod Message
pub mod Loop
pub mod Accounted
