-- ===== src/Examples.antt =====
-- Concrete inputs: small stand-ins for the libraries that the program calls, and its operations run on
-- them.
mod Standins
mod Updates
mod Documents
mod Network
mod Channels
mod Events
mod Downloads
mod Cycles
mod Connections
mod Machines
