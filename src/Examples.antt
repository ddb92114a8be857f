-- ===== src/Examples.antt =====
-- Concrete inputs, and the theorems at them.
mod Toy
mod Service
mod Worker
mod Program
mod Engine
mod Server
mod Client
mod Query
mod Queue
mod Csv
mod Sender
mod Udp
